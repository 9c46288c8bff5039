-- ===== src/Security/CredentialService/Trail.antt =====
-- Administration and the audit trail.
use scrappy_os.Prelude.{
  ℕ, String, ◌≡◌, ◌<◌, ◌≤◌, ◌+◌, refl, ap, ◌∙◌, sym, Bool, true, false, Option, none, some, List,
  [], ◌∷◌, length, length-append, arith, Bool-cases, inl, inr, ◌⊎◌, ◌≢◌, Option-cases, eq_iff, ◌==◌,
  if◌then◌else◌, ◌⊎◌,
}
use scrappy_os.Core.Events.{EventType, credential_rotated, credential_revoked, credential_pruned}
use scrappy_os.Core.Values.{JsonFields, end, str, bool, field}
use scrappy_os.Security.AuditEvents.{AuditRow, record_event}
use scrappy_os.Security.Credentials.{Credential, Issue, IssuedCredential, is_some}
use scrappy_os.Security.CredentialProtocol.{revoked_once}
use scrappy_os.Security.CredentialService.{
  CredentialService, Records, note, noted, then_noted, create, create_issued, create_stored, revoke,
  revoke_noted, rotate, rotate_found, rotate_issued, rotate_stored, note_rotation, prune,
  prune_retired, note_pruned, issue_credential, retired, replacement,
}

-- What an operator can ask of the service.
pub data AdminOp : Type 0 where
  create_op : Issue → AdminOp
  revoke_op : String → ℕ → AdminOp
  rotate_op : String → Bool → Issue → ℕ → AdminOp
  prune_op : ℕ → ℕ → AdminOp

module _ {S : Type 0} (sv : CredentialService S) where
  abbrev pub administer : AdminOp → Records S → Records S
  administer (create_op i) r = (create sv i r).1
  administer (revoke_op id when) r = (revoke sv id when r).1
  administer (rotate_op id revoke_previous draw when) r =
      (rotate sv id revoke_previous draw when r).1
  administer (prune_op older_than now) r = (prune sv older_than now r).1

  length-noted :
      (t : EventType) (c : Credential) (extra : JsonFields) (rows : List AuditRow)
      → length (noted sv t c extra rows) ≡ length rows + 1
  unfolding noted record_event
  length-noted t c extra rows = length-append rows _

  -- A record never takes anything out of the trail.
  length-note :
      (t : EventType) (c : Credential) (extra : JsonFields) (rows : List AuditRow)
      → length rows ≤ length (note sv t c extra rows).1
  unfolding note
  length-note t c extra rows = elim (Bool-cases (sv.accepts (length rows))) [
    | inl taken ↦ rw taken (omega (arith, length-noted t c extra rows))
    | inr failed ↦ rw failed (omega arith)
  ]

  length-note_taken :
      (t : EventType) (c : Credential) (extra : JsonFields) (rows : List AuditRow)
      → sv.accepts (length rows) ≡ true
      → length rows < length (note sv t c extra rows).1
  unfolding note
  length-note_taken t c extra rows taken = rw taken (omega (arith, length-noted t c extra rows))

  length-then_noted :
      (r : Bool × List AuditRow) (next : List AuditRow → Bool × List AuditRow)
      → ((rows : List AuditRow) → length rows ≤ length (next rows).1)
      → length r.1 ≤ length (then_noted sv r next).1
  unfolding then_noted
  length-then_noted (false, rows) next h = omega arith
  length-then_noted (true, rows) next h = h rows

  length-note_pruned :
      (cs : List Credential) (rows : List AuditRow)
      → length rows ≤ length (note_pruned sv cs rows).1
  unfolding note_pruned
  length-note_pruned [] rows = omega arith
  length-note_pruned (c ∷ cs) rows =
      let first = length-note credential_pruned c end rows in
      let rest =
        length-then_noted (note sv credential_pruned c end rows) (note_pruned sv cs)
          (length-note_pruned cs) in
      omega arith

  length-note_pruned_taken :
      (c : Credential) (cs : List Credential) (rows : List AuditRow)
      → sv.accepts (length rows) ≡ true
      → length rows < length (note_pruned sv (c ∷ cs) rows).1
  unfolding note_pruned
  length-note_pruned_taken c cs rows taken =
      let first = length-note_taken credential_pruned c end rows taken in
      let rest =
        length-then_noted (note sv credential_pruned c end rows) (note_pruned sv cs)
          (length-note_pruned cs) in
      omega arith

  length-note_rotation :
      (id : String) (b : Bool) (when : ℕ) (issued : IssuedCredential) (c : Credential)
      (rows : List AuditRow)
      → sv.accepts (length rows) ≡ true
      → length rows < length (note_rotation sv id b when issued c rows).1
  unfolding note_rotation
  length-note_rotation id b when issued c rows taken =
      let extra = field "rotated_from" (str id) (field "previous_revoked" (bool b) end) in
      let again =
        field "revoked_at" (str (sv.isoformat when)) (field "reason" (str "rotation") end) in
      let next : List AuditRow → Bool × List AuditRow =
        λ rows'. if b then note sv credential_revoked c again rows' else (true, rows') in
      let first = length-note_taken credential_rotated issued.credential extra rows taken in
      let rest =
        length-then_noted (note sv credential_rotated issued.credential extra rows) next (λ rows'.
          elim b
            as (λ b'.
              length rows'
              ≤ length (if b' then note sv credential_revoked c again rows' else (true, rows')).1) [
                | true ↦ length-note credential_revoked c again rows'
                | false ↦ omega arith
              ]) in
      omega arith

  -- Nothing changed, or there is something new in the trail, if the audit log takes an event.
  IsNoted : Records S → Records S → Type 0
  IsNoted r r' =
      ((j : String) → sv.store.get j r'.credentials ≡ sv.store.get j r.credentials)
      ⊎ (sv.accepts (length r.trail) ≡ true → length r.trail < length r'.trail)

  same : (r : Records S) → IsNoted r r
  unfolding IsNoted
  same r = inl (λ j. refl)

  create_issued-IsNoted :
      (o : Option IssuedCredential) (r : Records S) → IsNoted r (create_issued sv o r).1
  unfolding create_issued create_stored IsNoted
  create_issued-IsNoted none r = inl (λ j. refl)
  create_issued-IsNoted (some issued) r =
      elim (Option-cases (sv.store.create issued.credential r.credentials)) [
        | inl taken ↦ inl (λ j. rw taken refl)
        | inr (s, made) ↦
            inr (λ taken. rw made (length-note_taken _ issued.credential _ r.trail taken))
      ]

  create-IsNoted : (i : Issue) (r : Records S) → IsNoted r (create sv i r).1
  unfolding create
  create-IsNoted i r = create_issued-IsNoted _ r

  revoked_once-absent : (o : Option Credential) (when : ℕ) → revoked_once when o ≡ none → o ≡ none
  revoked_once-absent none when e = refl
  revoked_once-absent (some c) when e = elim (Bool-cases (is_some c.revoked_at)) [
    | inl old ↦ let f : some c ≡ none = sym (rw old refl) ∙ e in cc
    | inr live ↦ ground arith
  ]

  -- A revocation that finds nothing changes nothing.
  revoke-absent :
      (id : String) (when : ℕ) (s s' : S)
      → sv.store.get id s ≡ none
      → ((j : String)
          → sv.store.get j s'
            ≡ (if id == j then revoked_once when (sv.store.get j s) else sv.store.get j s))
      → (j : String) → sv.store.get j s' ≡ sv.store.get j s
  revoke-absent id when s s' missing at j = elim (Bool-cases (id == j)) [
    | inl hit ↦
        let here : sv.store.get j s ≡ none =
          ap (λ i. sv.store.get i s) (sym ((eq_iff id j).0 hit)) ∙ missing in
        let f : sv.store.get j s' ≡ revoked_once when (sv.store.get j s) = at j ∙ rw hit refl in
        f ∙ (rw here refl)
    | inr other ↦ at j ∙ rw other refl
  ]

  revoke_noted-IsNoted :
      (id : String) (when : ℕ) (p : Option Credential × S) (r : Records S)
      → p.0 ≡ revoked_once when (sv.store.get id r.credentials)
      → ((j : String)
          → sv.store.get j p.1 ≡ (
              if id == j
              then revoked_once when (sv.store.get j r.credentials)
              else sv.store.get j r.credentials))
      → IsNoted r (revoke_noted sv p when r.trail).1
  unfolding revoke_noted IsNoted
  revoke_noted-IsNoted id when (none, s) r e at =
      inl (revoke-absent id when r.credentials s (revoked_once-absent _ when (sym e)) at)
  revoke_noted-IsNoted id when (some c, s) r e at = inr (length-note_taken _ c _ r.trail)

  revoke-IsNoted : (id : String) (when : ℕ) (r : Records S) → IsNoted r (revoke sv id when r).1
  unfolding revoke
  revoke-IsNoted id when r =
      let (answer, at) = sv.store.revoke_lem id when r.credentials in
      revoke_noted-IsNoted id when (sv.store.revoke id when r.credentials) r answer at

  -- A rotation of a credential that is there finds it.
  rotate-finds :
      (id : String) (c existing : Credential) (old : Option ℕ) (s s' : S)
      → sv.store.get id s ≡ some existing
      → sv.store.rotate id c old s ≢ some (none, s')
  rotate-finds id c existing old s s' found e =
      elim (Option-cases (sv.store.get c.credential_id s)) [
        | inl fresh ↦
            let (s2, made, at) = sv.store.rotate_fresh id c old s existing found fresh in cc
        | inr (other, taken) ↦
            let failed = sv.store.rotate_taken id c old s (rw found refl) (rw taken refl) in cc
      ]

  rotate_stored-IsNoted :
      (o : Option (Option Credential × S)) (id : String) (b : Bool) (when : ℕ)
      (issued : IssuedCredential) (r : Records S)
      → ((s' : S) → o ≢ some (none, s'))
      → IsNoted r (rotate_stored sv o id b when issued r).1
  unfolding rotate_stored IsNoted
  rotate_stored-IsNoted none id b when issued r finds = inl (λ j. refl)
  rotate_stored-IsNoted (some (none, s)) id b when issued r finds = elim (finds s refl) [ ]
  rotate_stored-IsNoted (some (some c, s)) id b when issued r finds =
      inr (length-note_rotation id b when issued c r.trail)

  rotate_issued-IsNoted :
      (o : Option IssuedCredential) (id : String) (b : Bool) (when : ℕ) (existing : Credential)
      (r : Records S)
      → sv.store.get id r.credentials ≡ some existing
      → IsNoted r (rotate_issued sv o id b when r).1
  unfolding rotate_issued
  rotate_issued-IsNoted none id b when existing r found = same r
  rotate_issued-IsNoted (some issued) id b when existing r found =
      let old = if b then some when else none in
      rotate_stored-IsNoted (sv.store.rotate id issued.credential old r.credentials) id b when
        issued r (λ s'. rotate-finds id issued.credential existing old r.credentials s' found)

  rotate-IsNoted :
      (id : String) (b : Bool) (draw : Issue) (when : ℕ) (r : Records S)
      → IsNoted r (rotate sv id b draw when r).1
  unfolding rotate rotate_found
  rotate-IsNoted id b draw when r = elim (Option-cases (sv.store.get id r.credentials)) [
    | inl missing ↦ rw missing (same r)
    | inr (existing, found) ↦ rw found (
        rotate_issued-IsNoted (issue_credential sv.hmac sv.pepper (replacement sv draw id existing))
          id b when existing r found)
  ]

  prune_retired-IsNoted :
      (o : Option (List String → S → S)) (cs : List Credential) (r : Records S)
      → IsNoted r (prune_retired sv o cs r).1
  unfolding prune_retired IsNoted
  prune_retired-IsNoted o [] r = inl (λ j. refl)
  prune_retired-IsNoted none (c ∷ cs) r = inl (λ j. refl)
  prune_retired-IsNoted (some delete) (c ∷ cs) r = inr (length-note_pruned_taken c cs r.trail)

  prune-IsNoted : (older_than now : ℕ) (r : Records S) → IsNoted r (prune sv older_than now r).1
  unfolding prune
  prune-IsNoted older_than now r =
      prune_retired-IsNoted sv.store.delete_many
        (retired older_than now (sv.store.list_credentials r.credentials)) r

  administer-IsNoted : (op : AdminOp) (r : Records S) → IsNoted r (administer op r)
  administer-IsNoted (create_op i) r = create-IsNoted i r
  administer-IsNoted (revoke_op id when) r = revoke-IsNoted id when r
  administer-IsNoted (rotate_op id b draw when) r = rotate-IsNoted id b draw when r
  administer-IsNoted (prune_op older_than now) r = prune-IsNoted older_than now r

-- No administration without a trace: where the audit log takes the next event, an operation of the
-- service that leaves the audit trail as it was, because it failed or found nothing to do, leaves
-- every credential as it was too.
pub administer-silent :
    {S : Type 0} (sv : CredentialService S) (op : AdminOp) (r : Records S)
    → sv.accepts (length r.trail) ≡ true
    → (administer sv op r).trail ≡ r.trail
    → (j : String) → sv.store.get j (administer sv op r).credentials ≡ sv.store.get j r.credentials
unfolding IsNoted
administer-silent sv op r taken e j = elim (administer-IsNoted sv op r) [
  | inl kept ↦ kept j
  | inr more ↦
      let f = ap (λ (rows : List AuditRow). length rows) e in let g = more taken in ground arith
]
