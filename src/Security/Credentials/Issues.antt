-- ===== src/Security/Credentials/Issues.antt =====
-- What an issued credential is made of.
use scrappy_os.Prelude.{
  ◌≡◌, refl, ap, ◌∙◌, sym, String, Bool, true, false, Option, none, some, [], ◌∷◌, arith,
  Bool-cases, inl, inr, if◌then◌else◌,
}
use scrappy_os.Core.Identity.{Actor, bearer_token, make_actor}
use scrappy_os.Security.Credentials.{
  Credential, Hmac, Issue, IssuedCredential, issue_credential, issue_verified, issue_checked,
  make_credential, compute_verifier, format_token, to_actor, is_past,
}

-- The credential that an issue with some verifier describes.
abbrev pub issued_for : Issue → String → Credential
issued_for i verifier = record {
  credential_id = i.new_id;
  actor_id = i.actor_id;
  actor_type = i.actor_type;
  display_name = i.display_name;
  scopes = i.scopes;
  verifier = verifier;
  created_at = i.now;
  expires_at = i.expires_at;
  revoked_at = none;
  last_used_at = none;
  auth_method = bearer_token;
  metadata = i.metadata;
}

abbrev pub issued_actor : Issue → Actor
issued_actor i = record {
  id = i.actor_id;
  actor_type = i.actor_type;
  display_name = i.display_name;
  scopes = i.scopes;
  auth_method = bearer_token;
  metadata = ("credential_id", i.new_id) ∷ [];
}

abbrev pub IsIssued : Hmac → String → Issue → IssuedCredential → Type 0
IsIssued hmac pepper i issued =
    (v : String) × (compute_verifier hmac i.secret pepper ≡ some v)
    × (issued.credential ≡ issued_for i v)
    × (format_token i.new_id i.secret ≡ some issued.token)
    × (to_actor (issued_for i v) ≡ some (issued_actor i))

guarded-some : (b : Bool) (x d : Credential) → (if b then some x else none) ≡ some d → d ≡ x
guarded-some true x d e = cc
guarded-some false x d e = cc

made-same :
    (i : Issue) (v : String) (d : Credential)
    → make_credential (issued_for i v) ≡ some d
    → (d ≡ issued_for i v) × (to_actor (issued_for i v) ≡ some (issued_actor i))
unfolding make_credential to_actor make_actor
made-same i v d e = (guarded-some _ _ d e, ground arith)

issue_checked-parts :
    (c : Option Credential) (t : Option String) (issued : IssuedCredential)
    → issue_checked c t ≡ some issued
    → (c ≡ some issued.credential) × (t ≡ some issued.token)
unfolding issue_checked
issue_checked-parts (some c) (some t) issued e =
    let same : record { credential = c; token = t } ≡ issued = cc in
    (
      ap (λ (x : IssuedCredential). some x.credential) same,
      ap (λ (x : IssuedCredential). some x.token) same,
    )
issue_checked-parts (some c) none issued e = cc
issue_checked-parts none t issued e = cc

issue_verified-parts :
    (i : Issue) (o : Option String) (issued : IssuedCredential)
    → issue_verified i o ≡ some issued
    → (v : String) × (o ≡ some v)
      × (issued.credential ≡ issued_for i v)
      × (format_token i.new_id i.secret ≡ some issued.token)
      × (to_actor (issued_for i v) ≡ some (issued_actor i))
unfolding issue_verified
issue_verified-parts i none issued e = cc
issue_verified-parts i (some v) issued e =
    let (made, token) = issue_checked-parts _ _ issued e in
    let (same, actor) = made-same i v issued.credential made in (v, refl, same, token, actor)

pub issue_credential-parts :
    (hmac : Hmac) (pepper : String) (i : Issue) (issued : IssuedCredential)
    → issue_credential hmac pepper i ≡ some issued
    → IsIssued hmac pepper i issued
unfolding issue_credential
issue_credential-parts hmac pepper i issued e = elim (Bool-cases (is_past i.expires_at i.now)) [
  | inl past ↦ let f : none ≡ some issued = sym (rw past refl) ∙ e in cc
  | inr future ↦
      let f : issue_verified i (compute_verifier hmac i.secret pepper) ≡ some issued =
        sym (rw future refl) ∙ e in
      issue_verified-parts i _ issued f
]
