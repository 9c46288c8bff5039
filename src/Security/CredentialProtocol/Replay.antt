-- ===== src/Security/CredentialProtocol/Replay.antt =====
-- A run of operations on a credential store, and the same run on an abstract view: a function from
-- ids to credentials.
use scrappy_os.Prelude.{
  ℕ, ◌≡◌, refl, ap, ◌∙◌, String, true, not, ◌&&◌, Option, none, some, List, [], ◌∷◌, contains, ◌==◌,
  if◌then◌else◌, arith, inl, inr, Option-cases,
}
use scrappy_os.Security.Credentials.{Credential, is_some}
use scrappy_os.Security.CredentialProtocol.{
  CredentialStore, revoked_once, revoked_at_option, used_at,
}

pub data StoreOp : Type 0 where
  create_op : Credential → StoreOp
  revoke_op : String → ℕ → StoreOp
  use_op : String → ℕ → StoreOp
  rotate_op : String → Credential → Option ℕ → StoreOp
  delete_op : List String → StoreOp

abbrev created : {S : Type 0} → Option S → S → S
created none s = s
created (some s') s = s'

abbrev rotated : {S : Type 0} → Option (Option Credential × S) → S → S
rotated none s = s
rotated (some (r, s')) s = s'

abbrev deleted : {S : Type 0} → Option (List String → S → S) → List String → S → S
deleted none ids s = s
deleted (some delete) ids s = delete ids s

-- What an operation leaves; one that raises leaves the state as it was.
abbrev pub after : {S : Type 0} → CredentialStore S → StoreOp → S → S
after st (create_op c) s = created (st.create c s) s
after st (revoke_op id when) s = (st.revoke id when s).1
after st (use_op id when) s = st.update_last_used id when s
after st (rotate_op id c old) s = rotated (st.rotate id c old s) s
after st (delete_op ids) s = deleted st.delete_many ids s

unfoldable pub run : {S : Type 0} → CredentialStore S → List StoreOp → S → S
run st [] s = s
run st (op ∷ ops) s = run st ops (after st op s)

abbrev pub View : Type 0
View = String → Option Credential

-- The same operations on the view.
abbrev pub change : StoreOp → View → View
change (create_op c) v j =
    if is_some (v c.credential_id) then v j else if c.credential_id == j then some c else v j
change (revoke_op id when) v j = if id == j then revoked_once when (v j) else v j
change (use_op id when) v j = if id == j then used_at when (v j) else v j
change (rotate_op id c old) v j =
    if is_some (v id) && not (is_some (v c.credential_id))
    then if c.credential_id == j
      then some c
      else if id == j
      then revoked_at_option old (v j)
      else v j
    else v j
change (delete_op ids) v j = if contains ids j then none else v j

unfoldable pub replay : List StoreOp → View → View
replay [] v = v
replay (op ∷ ops) v = replay ops (change op v)

module _ {S : Type 0} (st : CredentialStore S) where
  abbrev pub view : S → View
  view s j = st.get j s

  create-change :
      (c : Credential) (s : S) (j : String)
      → view (after st (create_op c) s) j ≡ change (create_op c) (view s) j
  create-change c s j = elim (Option-cases (st.get c.credential_id s)) [
    | inl missing ↦ let (s', made, at) = st.create_fresh c s missing in rw (made, missing) (at j)
    | inr (old, found) ↦
        let taken : st.create c s ≡ none = st.create_taken c s (rw found refl) in
        rw (taken, found) refl
  ]

  rotate-change :
      (id : String) (c : Credential) (old : Option ℕ) (s : S) (j : String)
      → view (after st (rotate_op id c old) s) j ≡ change (rotate_op id c old) (view s) j
  rotate-change id c old s j = elim (Option-cases (st.get id s)) [
    | inl missing ↦ rw (st.rotate_absent id c old s missing, missing) refl
    | inr (existing, found) ↦ elim (Option-cases (st.get c.credential_id s)) [
      | inl fresh ↦
          let (s', made, at) = st.rotate_fresh id c old s existing found fresh in
          rw (made, found, fresh) (at j)
      | inr (other, taken) ↦
          rw (st.rotate_taken id c old s (rw found refl) (rw taken refl), found, taken) refl
    ]
  ]

  after-change :
      is_some st.delete_many ≡ true
      → (op : StoreOp) (s : S) (j : String) → view (after st op s) j ≡ change op (view s) j
  after-change deletes (create_op c) s j = create-change c s j
  after-change deletes (revoke_op id when) s j = (st.revoke_lem id when s).1 j
  after-change deletes (use_op id when) s j = st.update_last_used_lem id when s j
  after-change deletes (rotate_op id c old) s j = rotate-change id c old s j
  after-change deletes (delete_op ids) s j = elim (Option-cases st.delete_many) [
    | inl missing ↦ ground arith
    | inr (delete, found) ↦ rw found (st.delete_many_lem delete found ids s j)
  ]

  pub view-run :
      is_some st.delete_many ≡ true
      → (ops : List StoreOp) (s : S) → view (run st ops s) ≡ replay ops (view s)
  unfolding run replay
  view-run deletes [] s = refl
  view-run deletes (op ∷ ops) s =
      view-run deletes ops (after st op s) ∙ ap (replay ops) (λ i j. after-change deletes op s j i)
