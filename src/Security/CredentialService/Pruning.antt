-- ===== src/Security/CredentialService/Pruning.antt =====
-- What pruning deletes.
use scrappy_os.Prelude.{
  ℕ, String, ◌≡◌, ◌≤◌, ◌<◌, ◌↔◌, ◌⊎◌, refl, Bool, true, not, ◌&&◌, Option, none, some, List, [],
  ◌∷◌, map, contains, Any, arith, Bool-cases, inl, inr, eq_iff, ◌==◌, if◌then◌else◌,
}
use scrappy_os.Security.Credentials.{
  Credential, status_at, is_active, active, expired, revoked, is_past, is_some,
}
use scrappy_os.Security.CredentialService.{
  CredentialService, Records, note_pruned, prune, prune_retired, retired, is_retired, is_before,
  id_of,
}

abbrev IsOver : ℕ → ℕ → Option ℕ → Option ℕ → Type 0
IsOver older_than now revoked_at expires_at =
    ((t : ℕ) × (revoked_at ≡ some t) × (t < older_than))
    ⊎ ((revoked_at ≡ none) × ((t : ℕ) × (expires_at ≡ some t) × (t ≤ now) × (t < older_than)))

-- Revoked before the cutoff, or never revoked and expired both before the cutoff and by now.
abbrev pub IsStale : ℕ → ℕ → Credential → Type 0
IsStale older_than now c = IsOver older_than now c.revoked_at c.expires_at

-- `is_retired` on the two times of a credential.
abbrev over : ℕ → ℕ → Option ℕ → Option ℕ → Bool
over older_than now revoked_at expires_at =
    not (
      is_active (
        if is_some revoked_at then revoked else if is_past expires_at now then expired else active))
    && is_before (elim revoked_at [ some t ↦ some t | none ↦ expires_at ]) older_than

over_iff :
    (older_than now : ℕ) (r e : Option ℕ)
    → (over older_than now r e ≡ true) ↔ IsOver older_than now r e
over_iff older_than now (some t) e = (
  λ h. inl (t, refl, ground arith),
  λ h. elim h [ inl (u, f, g) ↦ let same : t ≡ u = cc in ground arith | inr (f, g) ↦ cc ],
)
over_iff older_than now none (some t) = (
  λ h. inr (refl, (t, refl, ground arith, ground arith)),
  λ h. elim h [
    | inl (u, f, g) ↦ cc
    | inr (f, (u, g, past, before)) ↦ let same : t ≡ u = cc in ground arith
  ],
)
over_iff older_than now none none =
    (λ h. cc, λ h. elim h [ inl (u, f, g) ↦ cc | inr (f, (u, g, past, before)) ↦ cc ])

is_retired_iff :
    (older_than now : ℕ) (c : Credential)
    → (is_retired older_than now c ≡ true) ↔ IsStale older_than now c
unfolding status_at
is_retired_iff older_than now c = over_iff older_than now c.revoked_at c.expires_at

contains-retired_iff :
    (older_than now : ℕ) (cs : List Credential) (j : String)
    → (contains (map id_of (retired older_than now cs)) j ≡ true)
      ↔ Any (λ c. (c.credential_id ≡ j) × IsStale older_than now c) cs
unfolding retired
contains-retired_iff older_than now [] j = (λ h. cc, λ h. elim h [ ])
contains-retired_iff older_than now (c ∷ cs) j =
    let (sound, complete) = contains-retired_iff older_than now cs j in
    let (stale, fresh) = is_retired_iff older_than now c in
    elim (Bool-cases (is_retired older_than now c)) [
      | inl old ↦ rw old (
        λ h. elim (Bool-cases (c.credential_id == j)) [
          | inl hit ↦ inl ((eq_iff c.credential_id j).0 hit, stale old)
          | inr miss ↦ inr (sound (ground arith))
        ],
        λ h. elim h [
          | inl (e, g) ↦ ground (arith, eq_iff c.credential_id j)
          | inr more ↦ let f = complete more in ground arith
        ],
      )
      | inr live ↦ rw live (
        λ h. inr (sound h),
        λ h. elim h [ inl (e, g) ↦ let f = fresh g in ground arith | inr more ↦ complete more ],
      )
    ]

module _ {S : Type 0} (sv : CredentialService S) (delete : List String → S → S) where
  -- What a pruning did: the ids that it returned are gone, and nothing else changed.
  IsPruned : List String → Records S → Records S → Type 0
  IsPruned ids r r' =
      (j : String)
      → sv.store.get j r'.credentials
        ≡ (if contains ids j then none else sv.store.get j r.credentials)

  prune_retired-IsPruned :
      (cs : List Credential) (r : Records S)
      → sv.store.delete_many ≡ some delete
      → (prune_retired sv (some delete) cs r).0
          ≡ (if (note_pruned sv cs r.trail).0 then some (map id_of cs) else none)
        × IsPruned (map id_of cs) r (prune_retired sv (some delete) cs r).1
  unfolding prune_retired IsPruned note_pruned
  prune_retired-IsPruned [] r deletes = (refl, λ j. refl)
  prune_retired-IsPruned (c ∷ cs) r deletes =
      (refl, λ j. sv.store.delete_many_lem delete deletes (map id_of (c ∷ cs)) r.credentials j)

-- Pruning returns the ids of exactly the stored credentials that were revoked before the cutoff, or
-- that were never revoked and had expired both before the cutoff and by now; afterwards nothing is
-- stored under these ids, and what is stored under any other id is unchanged. It raises instead of
-- returning exactly if the audit log does not record all of their events, and the store is then
-- the same. The store supports deletion.
pub prune_iff :
    {S : Type 0} (sv : CredentialService S) (delete : List String → S → S) (older_than now : ℕ)
    (r : Records S)
    → sv.store.delete_many ≡ some delete
    → (ids : List String) × ((prune sv older_than now r).0 ≡ (
        if (note_pruned sv
          (retired older_than now (sv.store.list_credentials r.credentials))
          r.trail).0
        then some ids
        else none))
      × ((j : String)
          → (contains ids j ≡ true)
            ↔ Any
                (λ c. (c.credential_id ≡ j) × IsStale older_than now c)
                (sv.store.list_credentials r.credentials))
      × ((j : String)
          → sv.store.get j (prune sv older_than now r).1.credentials
            ≡ (if contains ids j then none else sv.store.get j r.credentials))
unfolding prune IsPruned
prune_iff sv delete older_than now r deletes =
    let listed = sv.store.list_credentials r.credentials in
    let cs = retired older_than now listed in
    let (answer, gone) = prune_retired-IsPruned sv delete cs r deletes in
    (
      map id_of cs,
      rw deletes answer,
      λ j. contains-retired_iff older_than now listed j,
      λ j. rw deletes (gone j),
    )
