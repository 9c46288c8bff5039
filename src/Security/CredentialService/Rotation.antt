-- ===== src/Security/CredentialService/Rotation.antt =====
-- What a rotation leaves in the store.
use scrappy_os.Prelude.{
  ℕ, String, ◌≡◌, refl, ap, ◌∙◌, sym, Bool, none, some, Bool-cases, inl, inr, eq_iff, ◌==◌,
  if◌then◌else◌,
}
use scrappy_os.Security.Credentials.{Credential, Issue, IssuedCredential, issue_credential}
use scrappy_os.Security.Credentials.Issues.{issue_credential-parts}
use scrappy_os.Security.CredentialProtocol.{revoked_at_option}
use scrappy_os.Security.CredentialService.{
  CredentialService, Records, rotate, rotate_found, rotate_issued, rotate_stored, replacement,
  note_rotation,
}

-- A credential with the authority of another, under its own id.
abbrev pub HasAuthority : Credential → Credential → Type 0
HasAuthority existing c =
    (c.actor_id ≡ existing.actor_id)
    × (c.actor_type ≡ existing.actor_type)
    × (c.scopes ≡ existing.scopes)
    × (c.revoked_at ≡ none)

module _ {S : Type 0} (sv : CredentialService S) where
  replacement-HasAuthority :
      (draw : Issue) (id : String) (existing : Credential) (issued : IssuedCredential)
      → issue_credential sv.hmac sv.pepper (replacement sv draw id existing) ≡ some issued
      → HasAuthority existing issued.credential
  replacement-HasAuthority draw id existing issued made =
      let (v, verifier, same, token, actor) =
        issue_credential-parts sv.hmac sv.pepper (replacement sv draw id existing) issued made in
      (
        ap (λ (c : Credential). c.actor_id) same,
        ap (λ (c : Credential). c.actor_type) same,
        ap (λ (c : Credential). c.scopes) same,
        ap (λ (c : Credential). c.revoked_at) same,
      )

-- Rotating a stored credential, when the replacement is issued under a fresh id, succeeds, unless
-- the audit log does not record its events, and in both cases leaves this store: the replacement
-- is stored with the actor and the scopes of the old credential and is not revoked; the
-- old credential is still stored, revoked if that was asked for (unless it had been before) and
-- unchanged if not; every other credential is unchanged.
pub rotate_lem :
    {S : Type 0} (sv : CredentialService S) (id : String) (revoke_previous : Bool) (draw : Issue)
    (when : ℕ) (r : Records S) (existing : Credential) (issued : IssuedCredential)
    → sv.store.get id r.credentials ≡ some existing
    → issue_credential sv.hmac sv.pepper (replacement sv draw id existing) ≡ some issued
    → sv.store.get issued.credential.credential_id r.credentials ≡ none
    → HasAuthority existing issued.credential
      × ((r' : Records S) × (rotate sv id revoke_previous draw when r ≡ (
        if (note_rotation sv id revoke_previous when issued existing r.trail).0
            then some (record {
              issued = issued;
              previous = existing;
              previous_revoked = revoke_previous;
            })
            else none,
        r',
      ))
          × ((j : String)
              → sv.store.get j r'.credentials ≡ (
                  if issued.credential.credential_id == j
                  then some issued.credential
                  else if id == j
                  then revoked_at_option
                      (if revoke_previous then some when else none)
                      (some existing)
                  else sv.store.get j r.credentials)))
unfolding rotate rotate_found rotate_issued rotate_stored
rotate_lem sv id b draw when r existing issued found made fresh =
    let old = if b then some when else none in
    let (s, done, at) =
      sv.store.rotate_fresh id issued.credential old r.credentials existing found fresh in
    (
      replacement-HasAuthority sv draw id existing issued made,
      (
        record { credentials = s; trail = (note_rotation sv id b when issued existing r.trail).1 },
        rw (found, made, done) refl,
        λ j. elim (Bool-cases (id == j)) [
          | inl hit ↦
              let here : sv.store.get j r.credentials ≡ some existing =
                ap (λ i. sv.store.get i r.credentials) (sym ((eq_iff id j).0 hit)) ∙ found in
              at j ∙ rw (hit, here) refl
          | inr other ↦ at j ∙ rw other refl
        ],
      ),
    )
