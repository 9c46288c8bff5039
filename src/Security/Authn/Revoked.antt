-- ===== src/Security/Authn/Revoked.antt =====
-- A revoked credential at the authenticator.
use scrappy_os.Prelude.{ℕ, ◌≡◌, refl, String, true, Option, none, some, List, Bool-cases, inl, inr}
use scrappy_os.Security.Credentials.{
  Credential, Hmac, parse_token, verify_secret, status_at, is_some,
}
use scrappy_os.Security.CredentialProtocol.Replay.{StoreOp, run}
use scrappy_os.Security.CredentialProtocol.Revocation.{revocation, spares, revocation-run}
use scrappy_os.Security.Authn.{
  accepted, CredentialAuthenticator, authenticate, check_presented, check_token, check_found,
  check_status, parse_bearer, unknown, AuthFailureDetail, secret_mismatch, credential_revoked,
}

check_found-revoked :
    {S : Type 0} (hmac : Hmac) (a : CredentialAuthenticator S) (secret : String)
    (r : Option Credential) (t : ℕ) (s : S)
    → revocation r ≡ some t
    → (why : AuthFailureDetail) × (check_found hmac a secret r s ≡ (unknown why, s))
unfolding check_found check_status status_at
check_found-revoked hmac a secret none t s e = cc
check_found-revoked hmac a secret (some c) t s e =
    elim (Bool-cases (verify_secret hmac secret c.verifier a.pepper)) [
      | inl good ↦ (credential_revoked, rw good (rw e refl))
      | inr bad ↦ (secret_mismatch, rw bad refl)
    ]

-- Once a credential is revoked, no header that names its id is accepted again, whatever secret it
-- carries and whatever operations the store has run in between, as long as none deletes the id:
-- the answer is the refusal of an unknown credential, and the store is left as it was.
pub revoked_refused :
    {S : Type 0} (hmac : Hmac) (a : CredentialAuthenticator S) (ops : List StoreOp) (s : S)
    (header : Option String) (token id secret : String) (t : ℕ)
    → is_some a.store.delete_many ≡ true
    → revocation (a.store.get id s) ≡ some t
    → spares id ops ≡ true
    → parse_bearer header ≡ accepted token
    → parse_token token ≡ some (id, secret)
    → (why : AuthFailureDetail) × (authenticate hmac a header (run a.store ops s)
        ≡ (unknown why, run a.store ops s))
unfolding authenticate check_presented check_token
revoked_refused hmac a ops s header token id secret t deletes e kept sent parsed =
    let s' = run a.store ops s in
    let later = revocation-run a.store ops s id t deletes kept e in
    let (why, f) = check_found-revoked hmac a secret (a.store.get id s') t s' later in
    (why, rw (sent, parsed) f)
