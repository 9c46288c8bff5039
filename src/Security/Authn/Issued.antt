-- ===== src/Security/Authn/Issued.antt =====
-- An issued credential, from `issue_credential` through the store to the authenticator.
use Prim.Native.String
use scrappy_os.Prelude.{
  ◌≡◌, ◌≢◌, ◌≤◌, refl, ap, ◌∙◌, sym, String, true, false, none, some, eq_iff, inl, inr,
  Option-cases,
}
use scrappy_os.Security.Credentials.{
  Credential, Hmac, Issue, IssuedCredential, issue_credential, compute_verifier, verify_secret,
  format_token, parse_token, status_at, to_actor, is_past,
}
use scrappy_os.Security.Credentials.Issues.{issued_for, issued_actor, issue_credential-parts}
use scrappy_os.Security.Credentials.Tokens.{parse_token_iff}
use scrappy_os.Security.CredentialProtocol.{CredentialStore}
use scrappy_os.Security.Authn.{
  accepted, CredentialAuthenticator, authenticate, check_presented, check_token, check_found,
  check_status,
}
use scrappy_os.Security.Authn.Headers.{is_solid, bearer_header, parse_bearer-header}

-- The token of an issue, read back.
issued-parsed :
    (i : Issue) (token : String)
    → format_token i.new_id i.secret ≡ some token
    → i.secret ≢ ""
    → String.count token ≤ 512
    → parse_token token ≡ some (i.new_id, i.secret)
issued-parsed i token made filled short =
    (parse_token_iff token i.new_id i.secret).1 (made, filled, short)

parsed-filled : (token : String) (x : String × String) → parse_token token ≡ some x → token ≢ ""
unfolding parse_token
parsed-filled token x e bad = let f : parse_token token ≡ parse_token "" = ap parse_token bad in cc

verified :
    (hmac : Hmac) (pepper secret v : String)
    → compute_verifier hmac secret pepper ≡ some v
    → verify_secret hmac secret v pepper ≡ true
unfolding verify_secret
verified hmac pepper secret v e = rw e ((eq_iff v v).1 refl)

check_found-issued :
    {S : Type 0} (hmac : Hmac) (a : CredentialAuthenticator S) (i : Issue) (v : String) (s : S)
    → compute_verifier hmac i.secret a.pepper ≡ some v
    → to_actor (issued_for i v) ≡ some (issued_actor i)
    → is_past i.expires_at a.now ≡ false
    → (check_found hmac a i.secret (some (issued_for i v)) s).0 ≡ accepted (issued_actor i)
unfolding check_found check_status status_at
check_found-issued hmac a i v s e actor live =
    rw (verified hmac a.pepper i.secret v e) (rw live (rw actor refl))

-- A store that created a credential holds it under its id.
get-created :
    {S : Type 0} (st : CredentialStore S) (c : Credential) (s s' : S)
    → st.create c s ≡ some s'
    → st.get c.credential_id s' ≡ some c
get-created st c s s' e = elim (Option-cases (st.get c.credential_id s)) [
  | inl fresh ↦
      let (s2, made, at) = st.create_fresh c s fresh in
      let same : s2 ≡ s' = cc in
      let f : st.get c.credential_id s2 ≡ some c =
        at c.credential_id ∙ rw ((eq_iff c.credential_id c.credential_id).1 refl) refl in
      rw (← same) f
  | inr (old, found) ↦ let taken : st.create c s ≡ none = st.create_taken c s (rw found refl) in cc
]

-- A credential that was issued and created in the store is accepted as long as it has not expired:
-- the header `Bearer` with its token gives the actor that the issue named, with its scopes. The
-- token is at most 512 characters long and has no white space, and its secret is not empty.
pub issued_accepted :
    {S : Type 0} (hmac : Hmac) (a : CredentialAuthenticator S) (i : Issue)
    (issued : IssuedCredential) (s s' : S)
    → issue_credential hmac a.pepper i ≡ some issued
    → a.store.create issued.credential s ≡ some s'
    → i.secret ≢ ""
    → is_solid issued.token ≡ true
    → String.count issued.token ≤ 512
    → is_past i.expires_at a.now ≡ false
    → (authenticate hmac a (some (bearer_header issued.token)) s').0 ≡ accepted (issued_actor i)
unfolding authenticate check_presented check_token
issued_accepted hmac a i issued s s' e created filled solid short live =
    let (v, verifier, same, token, actor) = issue_credential-parts hmac a.pepper i issued e in
    let parsed = issued-parsed i issued.token token filled short in
    let sent = parse_bearer-header issued.token solid (parsed-filled issued.token _ parsed) in
    let stored : a.store.get i.new_id s' ≡ some (issued_for i v) =
      ap (λ (c : Credential). a.store.get c.credential_id s') (sym same)
      ∙ get-created a.store issued.credential s s' created
      ∙ ap some same in
    rw (sent, parsed, stored) (check_found-issued hmac a i v s' verifier actor live)
