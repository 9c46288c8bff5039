-- ===== src/Security/CredentialStore/Laws.antt =====
-- The SQLite implementation keeps the laws of the protocol.
use scrappy_os.Prelude.{
  ℕ, ◌≡◌, refl, ap, ◌∙◌, sym, String, true, false, Option, none, some, List, [], ◌∷◌, ◌++◌,
  contains, ◌==◌, if◌then◌else◌, arith, eq_iff, Bool-cases, inl, inr, Option-cases,
}
use scrappy_os.Security.Credentials.{Credential, is_some, with_revoked_at}
use scrappy_os.Security.CredentialProtocol.{
  CredentialStore, revoked_once, revoked_at_option, used_at,
}
use scrappy_os.Security.CredentialStore.{
  CredentialRow, row_to_credential, credential_params, find_row, update_row, load, get, create,
  revoke, update_last_used, rotate, revoke_old, delete_many, delete_each, set_revoked, set_used,
  list_credentials,
}
use scrappy_os.Security.CredentialStore.Rows.{
  row_to_credential-params, find_row-append, find_row-set_revoked, find_row-set_used,
  find_row-delete_each, changed,
}

get-none : (id : String) (rows : List CredentialRow) → get id rows ≡ none → find_row id rows ≡ none
unfolding get
get-none id rows e = elim (Option-cases (find_row id rows)) [
  | inl missing ↦ missing
  | inr (row, found) ↦ ground arith
]

load-revoked :
    (when : ℕ) (r : Option CredentialRow) (c : Credential)
    → load r ≡ some c
    → load (changed (set_revoked when) r) ≡ some (with_revoked_at when c)
unfolding row_to_credential
load-revoked when none c e = cc
load-revoked when (some row) c e = let f : row_to_credential row ≡ c = cc in rw (← f) refl

load-used :
    (when : ℕ) (r : Option CredentialRow) → load (changed (set_used when) r) ≡ used_at when (load r)
unfolding row_to_credential
load-used when none = refl
load-used when (some row) = refl

pub create_taken :
    (c : Credential) (rows : List CredentialRow)
    → is_some (get c.credential_id rows) ≡ true
    → create c rows ≡ none
unfolding create get
create_taken c rows e = elim (Option-cases (find_row c.credential_id rows)) [
  | inl missing ↦ ground arith
  | inr (row, found) ↦ rw found refl
]

get-append :
    (c : Credential) (j : String) (rows : List CredentialRow)
    → find_row c.credential_id rows ≡ none
    → get j (rows ++ credential_params c ∷ [])
      ≡ (if c.credential_id == j then some c else get j rows)
unfolding get
get-append c j rows missing =
    let found =
      find_row-append j rows (credential_params c) (unfold credential_params in missing) in
    elim (Bool-cases (c.credential_id == j)) [
      | inl hit ↦
          let f : find_row j (rows ++ credential_params c ∷ []) ≡ some (credential_params c) =
            found ∙ (unfold credential_params in rw hit refl) in
          rw hit (ap load f ∙ ap some (row_to_credential-params c))
      | inr other ↦
          let f : find_row j (rows ++ credential_params c ∷ []) ≡ find_row j rows =
            found ∙ (unfold credential_params in rw other refl) in
          rw other (ap load f)
    ]

pub create_fresh :
    (c : Credential) (rows : List CredentialRow)
    → get c.credential_id rows ≡ none
    → (rows' : List CredentialRow) × (create c rows ≡ some rows')
      × ((j : String) → get j rows' ≡ (if c.credential_id == j then some c else get j rows))
unfolding create
create_fresh c rows e =
    let missing = get-none c.credential_id rows e in
    (rows ++ credential_params c ∷ [], rw missing refl, λ j. get-append c j rows missing)

-- A revocation written for the id `id`, whose credential `c` was not revoked.
get-set_revoked :
    (id j : String) (when : ℕ) (rows : List CredentialRow) (c : Credential)
    → get id rows ≡ some c
    → is_some c.revoked_at ≡ false
    → get j (update_row id (set_revoked when) rows)
      ≡ (if id == j then revoked_once when (get j rows) else get j rows)
get-set_revoked id j when rows c e live = elim (Bool-cases (id == j)) [
  | inl hit ↦
      let same = (eq_iff id j).0 hit in
      let f : get j rows ≡ some c = rw (← same) e in
      let g = load-revoked when (find_row j rows) c (unfold get in f) in
      rw (hit, f, live)
        (unfold get in ap load (find_row-set_revoked id j when rows ∙ rw hit refl) ∙ g)
  | inr other ↦
      rw other (unfold get in ap load (find_row-set_revoked id j when rows ∙ rw other refl))
]

revoked_once_if :
    (id j : String) (when : ℕ) (rows : List CredentialRow)
    → revoked_once when (get id rows) ≡ get id rows
    → get j rows ≡ (if id == j then revoked_once when (get j rows) else get j rows)
revoked_once_if id j when rows e = elim (Bool-cases (id == j)) [
  | inl hit ↦ let same = (eq_iff id j).0 hit in rw hit (rw (← same) (sym e))
  | inr other ↦ rw other refl
]

pub revoke_lem :
    (id : String) (when : ℕ) (rows : List CredentialRow)
    → ((revoke id when rows).0 ≡ revoked_once when (get id rows))
      × ((j : String)
          → get j (revoke id when rows).1
            ≡ (if id == j then revoked_once when (get j rows) else get j rows))
unfolding revoke
revoke_lem id when rows = elim (Option-cases (get id rows)) [
  | inl missing ↦
      (rw missing refl, λ j. rw missing (revoked_once_if id j when rows (rw missing refl)))
  | inr (c, found) ↦ elim (Bool-cases (is_some c.revoked_at)) [
    | inl old ↦
        let f : revoke id when rows ≡ (some c, rows) = rw (found, old) refl in
        (
          ap (λ (r : Option Credential × List CredentialRow). r.0) f ∙ rw (found, old) refl,
          λ j.
              ap (λ (r : Option Credential × List CredentialRow). get j r.1) f
              ∙ revoked_once_if id j when rows (rw (found, old) refl),
        )
    | inr live ↦
        let rows' = update_row id (set_revoked when) rows in
        let f : revoke id when rows ≡ (some (with_revoked_at when c), rows') =
          rw (found, live) refl in
        (
          ap (λ (r : Option Credential × List CredentialRow). r.0) f ∙ rw (found, live) refl,
          λ j.
              ap (λ (r : Option Credential × List CredentialRow). get j r.1) f
              ∙ get-set_revoked id j when rows c found live,
        )
  ]
]

pub update_last_used_lem :
    (id : String) (when : ℕ) (rows : List CredentialRow) (j : String)
    → get j (update_last_used id when rows)
      ≡ (if id == j then used_at when (get j rows) else get j rows)
unfolding update_last_used get
update_last_used_lem id when rows j = elim (Bool-cases (id == j)) [
  | inl hit ↦
      rw hit (
        ap load (find_row-set_used id j when rows ∙ rw hit refl) ∙ load-used when (find_row j rows))
  | inr other ↦ rw other (ap load (find_row-set_used id j when rows ∙ rw other refl))
]

get-delete_each :
    (ids : List String) (rows : List CredentialRow) (j : String)
    → get j (delete_each ids rows) ≡ (if contains ids j then none else get j rows)
unfolding get
get-delete_each ids rows j = elim (Bool-cases (contains ids j)) [
  | inl hit ↦
      let f : find_row j (delete_each ids rows) ≡ none =
        find_row-delete_each ids j rows ∙ rw hit refl in
      rw hit (ap load f)
  | inr other ↦
      let f : find_row j (delete_each ids rows) ≡ find_row j rows =
        find_row-delete_each ids j rows ∙ rw other refl in
      rw other (ap load f)
]

pub rotate_absent :
    (id : String) (c : Credential) (old : Option ℕ) (rows : List CredentialRow)
    → get id rows ≡ none
    → rotate id c old rows ≡ some (none, rows)
unfolding rotate
rotate_absent id c old rows e = rw e refl

pub rotate_taken :
    (id : String) (c : Credential) (old : Option ℕ) (rows : List CredentialRow)
    → is_some (get id rows) ≡ true
    → is_some (get c.credential_id rows) ≡ true
    → rotate id c old rows ≡ none
unfolding rotate
rotate_taken id c old rows here taken = elim (Option-cases (get id rows)) [
  | inl missing ↦ ground arith
  | inr (existing, found) ↦ rw (found, create_taken c rows taken) refl
]

-- The old credential after the insertion, which did not touch it.
get-revoke_old :
    (id j : String) (old : Option ℕ) (rows : List CredentialRow) (existing : Credential)
    → get id rows ≡ some existing
    → get j (revoke_old old existing id rows)
      ≡ (if id == j then revoked_at_option old (get j rows) else get j rows)
unfolding revoke_old
get-revoke_old id j none rows existing e = elim (Bool-cases (id == j)) [
  | inl hit ↦ rw hit refl
  | inr other ↦ rw other refl
]
get-revoke_old id j (some when) rows existing e = elim (Bool-cases (is_some existing.revoked_at)) [
  | inl done ↦
      let f : revoke_old (some when) existing id rows ≡ rows = rw done refl in
      ap (get j) f ∙ revoked_once_if id j when rows (rw (e, done) refl)
  | inr live ↦
      let f : revoke_old (some when) existing id rows ≡ update_row id (set_revoked when) rows =
        rw live refl in
      ap (get j) f ∙ get-set_revoked id j when rows existing e live
]

ids-differ :
    (c : Credential) (id : String) (rows : List CredentialRow) (existing : Credential)
    → get id rows ≡ some existing
    → get c.credential_id rows ≡ none
    → (c.credential_id == id) ≡ false
ids-differ c id rows existing e fresh = elim (Bool-cases (c.credential_id == id)) [
  | inl hit ↦
      let same = (eq_iff c.credential_id id).0 hit in
      let f : get id rows ≡ none = rw (← same) fresh in cc
  | inr other ↦ other
]

-- What a rotation leaves: the replacement under its id, the old credential revoked if asked.
rotated_view :
    (id : String) (c : Credential) (old : Option ℕ) (rows rows' : List CredentialRow)
    (existing : Credential)
    → get id rows ≡ some existing
    → get c.credential_id rows ≡ none
    → ((j : String) → get j rows' ≡ (if c.credential_id == j then some c else get j rows))
    → (j : String)
    → get j (revoke_old old existing id rows') ≡ (
        if c.credential_id == j
        then some c
        else if id == j
        then revoked_at_option old (get j rows)
        else get j rows)
rotated_view id c old rows rows' existing e fresh at j =
    let apart : (c.credential_id == id) ≡ false = ids-differ c id rows existing e fresh in
    let here : get id rows' ≡ some existing = at id ∙ rw apart e in
    let f = get-revoke_old id j old rows' existing here in
    elim (Bool-cases (c.credential_id == j)) [
      | inl hit ↦
          let other : (id == j) ≡ false =
            ground (arith, eq_iff c.credential_id j, eq_iff id j, eq_iff c.credential_id id) in
          let f' : get j (revoke_old old existing id rows') ≡ get j rows' = f ∙ rw other refl in
          let g : get j rows' ≡ some c = at j ∙ rw hit refl in rw hit (f' ∙ g)
      | inr miss ↦ let g : get j rows' ≡ get j rows = at j ∙ rw miss refl in rw (← g) (rw miss f)
    ]

pub rotate_fresh :
    (id : String) (c : Credential) (old : Option ℕ) (rows : List CredentialRow)
    (existing : Credential)
    → get id rows ≡ some existing
    → get c.credential_id rows ≡ none
    → (rows' : List CredentialRow) × (rotate id c old rows ≡ some (some existing, rows'))
      × ((j : String)
          → get j rows' ≡ (
              if c.credential_id == j
              then some c
              else if id == j
              then revoked_at_option old (get j rows)
              else get j rows))
unfolding rotate
rotate_fresh id c old rows existing e fresh =
    let (rows', made, at) = create_fresh c rows fresh in
    (
      revoke_old old existing id rows',
      rw (e, made) refl,
      rotated_view id c old rows rows' existing e fresh at,
    )

pub sqlite_deletes :
    (delete : List String → List CredentialRow → List CredentialRow)
    → some (λ (ids : List String) (rows : List CredentialRow). (delete_many ids rows).1)
      ≡ some delete
    → (ids : List String) (rows : List CredentialRow) (j : String)
    → get j (delete ids rows) ≡ (if contains ids j then none else get j rows)
unfolding delete_many
sqlite_deletes delete e ids rows j =
    let g : (λ (ids : List String) (rows : List CredentialRow). (delete_many ids rows).1) ≡ delete =
      cc in
    rw (← g) (get-delete_each ids rows j)

-- The table as an implementation of the protocol.
abbrev pub sqlite_store : CredentialStore (List CredentialRow)
sqlite_store = record {
  get = get;
  create = create;
  revoke = revoke;
  update_last_used = update_last_used;
  rotate = rotate;
  list_credentials = list_credentials none;
  delete_many = some (λ ids rows. (delete_many ids rows).1);
  create_taken = create_taken;
  create_fresh = create_fresh;
  revoke_lem = revoke_lem;
  update_last_used_lem = update_last_used_lem;
  rotate_absent = rotate_absent;
  rotate_taken = rotate_taken;
  rotate_fresh = rotate_fresh;
  delete_many_lem = sqlite_deletes;
}
