-- ===== src/Security/Authn/Refusals.antt =====
-- What a client can learn from a refusal.
use scrappy_os.Prelude.{◌≡◌, refl, ap, ◌∙◌, sym, String, Option, none, some, Bool-cases, inl, inr}
use scrappy_os.Core.Identity.{Actor}
use scrappy_os.Security.Credentials.{
  Credential, CredentialStatus, active, expired, revoked, Hmac, parse_token, verify_secret,
  status_at, to_actor,
}
use scrappy_os.Security.Authn.{
  AuthResult, accepted, refused, invalid, AuthenticationFailed, unknown_credential, parse_bearer,
  CredentialAuthenticator, check_status, check_found, check_token, check_presented, authenticate,
  proved, unknown, secret_mismatch,
}

-- The one answer for a credential that is not accepted.
abbrev pub IsUnknown : AuthenticationFailed → Type 0
IsUnknown f =
    (f.reason ≡ unknown_credential) × (f.message ≡ "the presented credential is not recognised")

abbrev refusal : AuthenticationFailed → AuthResult Actor
refusal f = refused f

IsUnknown-IsUnknown :
    (f g : AuthenticationFailed) → IsUnknown f → refusal f ≡ refused g → IsUnknown g
IsUnknown-IsUnknown f g h e = let same : f ≡ g = cc in rw (← same) h

proved-accepts : (o : Option Actor) (f : AuthenticationFailed) → proved o ≡ refused f → IsUnknown f
proved-accepts none f e = cc
proved-accepts (some actor) f e = cc

module _ {S : Type 0} (hmac : Hmac) (a : CredentialAuthenticator S) where
  check_status-refused :
      (st : CredentialStatus) (c : Credential) (s : S) (f : AuthenticationFailed)
      → (check_status hmac a st c s).0 ≡ refused f
      → IsUnknown f
  unfolding check_status
  check_status-refused active c s f e = proved-accepts (to_actor c) f e
  check_status-refused expired c s f e = IsUnknown-IsUnknown _ f (refl, refl) e
  check_status-refused revoked c s f e = IsUnknown-IsUnknown _ f (refl, refl) e

  check_found-refused :
      (secret : String) (r : Option Credential) (s : S) (f : AuthenticationFailed)
      → (check_found hmac a secret r s).0 ≡ refused f
      → IsUnknown f
  unfolding check_found
  check_found-refused secret none s f e = IsUnknown-IsUnknown _ f (refl, refl) e
  check_found-refused secret (some c) s f e =
      elim (Bool-cases (verify_secret hmac secret c.verifier a.pepper)) [
        | inl good ↦
            let g : (check_status hmac a (status_at c a.now) c s).0 ≡ refused f =
              sym (rw good refl) ∙ e in
            check_status-refused (status_at c a.now) c s f g
        | inr bad ↦
            let g : unknown secret_mismatch ≡ refused f = sym (rw bad refl) ∙ e in
            IsUnknown-IsUnknown _ f (refl, refl) g
      ]

  same_refusal :
      (r : AuthResult Actor) (f g : AuthenticationFailed)
      → r ≡ refused f
      → r ≡ refused g
      → (f.reason ≡ g.reason) × (f.message ≡ g.message)
  same_refusal r f g e h =
      let same : f ≡ g = cc in
      (
        ap (λ (x : AuthenticationFailed). x.reason) same,
        ap (λ (x : AuthenticationFailed). x.message) same,
      )

  check_token-alike :
      (t : Option (String × String)) (header : Option String) (s s' : S)
      (f g : AuthenticationFailed)
      → (check_token hmac a t header s).0 ≡ refused f
      → (check_token hmac a t header s').0 ≡ refused g
      → (f.reason ≡ g.reason) × (f.message ≡ g.message)
  unfolding check_token
  check_token-alike none header s s' f g e h = same_refusal _ f g e h
  check_token-alike (some (id, secret)) header s s' f g e h =
      let (p, q) = check_found-refused secret (a.store.get id s) s f e in
      let (p', q') = check_found-refused secret (a.store.get id s') s' g h in
      (p ∙ sym p', q ∙ sym q')

  check_presented-alike :
      (p : AuthResult String) (header : Option String) (s s' : S) (f g : AuthenticationFailed)
      → (check_presented hmac a p header s).0 ≡ refused f
      → (check_presented hmac a p header s').0 ≡ refused g
      → (f.reason ≡ g.reason) × (f.message ≡ g.message)
  unfolding check_presented
  check_presented-alike (accepted presented) header s s' f g e h =
      check_token-alike (parse_token presented) header s s' f g e h
  check_presented-alike (refused failure) header s s' f g e h = same_refusal _ f g e h
  check_presented-alike invalid header s s' f g e h = cc

-- If the same header is refused on two states of the credential store, the client is given the
-- same reason and the same message for both: it does not learn from a refusal whether the
-- credential that it named exists, is revoked, is expired, or has another secret.
pub refused_alike :
    {S : Type 0} (hmac : Hmac) (a : CredentialAuthenticator S) (header : Option String) (s s' : S)
    (f g : AuthenticationFailed)
    → (authenticate hmac a header s).0 ≡ refused f
    → (authenticate hmac a header s').0 ≡ refused g
    → (f.reason ≡ g.reason) × (f.message ≡ g.message)
unfolding authenticate
refused_alike hmac a header s s' f g e h =
    check_presented-alike hmac a (parse_bearer header) header s s' f g e h
