-- ===== src/Security/Authn.antt =====
-- src/scrappy_os/security/authn.py: from an `Authorization` header to an actor, and the hook of
-- src/scrappy_os/interface/api.py that keeps `last_used_at`.
-- SHA-256 and HMAC-SHA256 are parameters, the clock is a number of microseconds.
-- `generate_token` and the lifted timing of the comparisons are left out.
pub mod Refusals
pub mod Static
pub mod Headers
pub mod Issued
pub mod Revoked
mod Tests
use scrappy_os.Prelude.{
  ℕ, String, Bool, false, not, ◌||◌, Option, none, some, List, [], ◌∷◌, length, eqb, ltb, ◌==◌,
  if◌then◌else◌, ◌-◌,
}
use scrappy_os.Prelude.Text.{strip, words, is_lowered}
use scrappy_os.Core.Identity.{
  Actor, ActorType, service, bearer_token, Scope, make_actor, all_scopes,
}
use scrappy_os.Security.Credentials.{
  Credential, CredentialStatus, active, expired, revoked, Hmac, parse_token, verify_secret,
  status_at, to_actor,
}
use scrappy_os.Security.CredentialProtocol.{CredentialStore}

pub data AuthFailureReason : Type 0 where
  missing_credential malformed_credential unknown_credential no_credentials_configured :
      AuthFailureReason

pub data AuthFailureDetail : Type 0 where
  duplicate_header not_a_credential_token no_such_credential secret_mismatch credential_expired
        credential_revoked :
      AuthFailureDetail

-- `AuthenticationFailed`
pub record AuthenticationFailed : Type 0 where
  pub reason : AuthFailureReason
  pub message : String
  pub detail : Option AuthFailureDetail

-- A value, an `AuthenticationFailed`, or the `ValidationError` of an actor that its own validators
-- refuse.
pub data AuthResult (A : Type 0) : Type 0 where
  accepted : A → AuthResult A
  refused : AuthenticationFailed → AuthResult A
  invalid : AuthResult A

abbrev pub fail : {A : Type 0} → AuthFailureReason → String → AuthResult A
fail why text = refused (record { reason = why; message = text; detail = none })

bearer_parts : List String → AuthResult String
unfolding is_lowered
bearer_parts (scheme ∷ token ∷ []) =
    if not (is_lowered scheme "bearer") || token == ""
    then fail malformed_credential "malformed Authorization header: expected 'Bearer <token>'"
    else accepted token
bearer_parts _ =
    fail malformed_credential "malformed Authorization header: expected 'Bearer <token>'"

-- `parse_bearer`
unfoldable pub parse_bearer : Option String → AuthResult String
unfolding strip words bearer_parts
parse_bearer none =
    fail missing_credential "authentication required: send 'Authorization: Bearer <token>'"
parse_bearer (some header) =
    if strip header == ""
    then fail missing_credential "authentication required: send 'Authorization: Bearer <token>'"
    else bearer_parts (words header)

pub record TokenCredential : Type 0 where
  pub token : String
  pub actor_id : String
  pub actor_type : ActorType
  pub scopes : List Scope
  pub display_name : Option String

abbrev pub proved : Option Actor → AuthResult Actor
proved none = invalid
proved (some a) = accepted a

-- `TokenCredential.to_actor`
unfoldable pub token_actor : TokenCredential → AuthResult Actor
unfolding make_actor
token_actor c = proved (
    make_actor (record {
      id = c.actor_id;
      actor_type = c.actor_type;
      display_name = c.display_name;
      scopes = c.scopes;
      auth_method = bearer_token;
      metadata = [];
    }))

-- The loop of `StaticTokenAuthenticator.authenticate`, with what it matched so far.
unfoldable pub match_loop :
    (String → String)
    → String
    → Option TokenCredential
    → List TokenCredential
    → Option TokenCredential
match_loop sha256 digest matched [] = matched
match_loop sha256 digest matched (c ∷ cs) =
    match_loop sha256 digest (if digest == sha256 c.token then some c else matched) cs

abbrev pub recognise : Option TokenCredential → AuthResult Actor
unfolding token_actor
recognise none = fail unknown_credential "the presented credential is not recognised"
recognise (some c) = token_actor c

abbrev pub unconfigured : AuthResult Actor
unconfigured =
    fail no_credentials_configured
      "no API credentials are configured; set SCRAPPY_API_TOKEN to enable API access"

static_presented : (String → String) → List TokenCredential → AuthResult String → AuthResult Actor
unfolding match_loop
static_presented sha256 cs (accepted presented) =
    if eqb (length cs) 0
    then unconfigured
    else recognise (match_loop sha256 (sha256 presented) none cs)
static_presented sha256 cs (refused failure) = refused failure
static_presented sha256 cs invalid = invalid

-- `StaticTokenAuthenticator.authenticate`
unfoldable pub static_authenticate :
    (String → String) → List TokenCredential → Option String → AuthResult Actor
unfolding static_presented parse_bearer
static_authenticate sha256 cs header = static_presented sha256 cs (parse_bearer header)

null_presented : AuthResult String → AuthResult Actor
null_presented (accepted presented) = unconfigured
null_presented (refused failure) = refused failure
null_presented invalid = invalid

-- `NullAuthenticator.authenticate`
unfoldable pub null_authenticate : Option String → AuthResult Actor
unfolding null_presented parse_bearer
null_authenticate header = null_presented (parse_bearer header)

abbrev pub chosen_scopes : Option (List Scope) → List Scope
chosen_scopes none = all_scopes
chosen_scopes (some scopes) = scopes

-- `build_authenticator`
unfoldable pub build_authenticator :
    (String → String)
    → Option String
    → String
    → Option (List Scope)
    → Option String
    → AuthResult Actor
unfolding null_authenticate static_authenticate strip
build_authenticator sha256 none id scopes = null_authenticate
build_authenticator sha256 (some token) id scopes =
    if strip token == ""
    then null_authenticate
    else static_authenticate sha256 (
        record {
          token = token;
          actor_id = id;
          actor_type = service;
          scopes = chosen_scopes scopes;
          display_name = some "configured API token";
        }
        ∷ [])

-- What a `CredentialAuthenticator` holds, over a state `S` of its store.
pub record CredentialAuthenticator (S : Type 0) : Type 0 where
  pub store : CredentialStore S
  pub pepper : String
  pub legacy : Option (Option String → AuthResult Actor)
  pub on_authenticated : Option (Credential → S → S)
  pub now : ℕ

-- `_unknown`
abbrev pub unknown : AuthFailureDetail → AuthResult Actor
unknown why = refused (record {
  reason = unknown_credential;
  message = "the presented credential is not recognised";
  detail = some why;
})

abbrev pub try_legacy : Option (Option String → AuthResult Actor) → Option String → AuthResult Actor
try_legacy none header = unknown not_a_credential_token
try_legacy (some legacy) header = legacy header

abbrev pub notify : {S : Type 0} → Option (Credential → S → S) → Credential → S → S
notify none c s = s
notify (some hook) c s = hook c s

module _ {S : Type 0} (hmac : Hmac) (a : CredentialAuthenticator S) where
  check_status : CredentialStatus → Credential → S → AuthResult Actor × S
  unfolding to_actor
  check_status active c s = (proved (to_actor c), notify a.on_authenticated c s)
  check_status expired c s = (unknown credential_expired, s)
  check_status revoked c s = (unknown credential_revoked, s)

  check_found : String → Option Credential → S → AuthResult Actor × S
  unfolding check_status verify_secret status_at
  check_found secret none s = (unknown no_such_credential, s)
  check_found secret (some c) s =
      if verify_secret hmac secret c.verifier a.pepper
      then check_status (status_at c a.now) c s
      else (unknown secret_mismatch, s)

  check_token : Option (String × String) → Option String → S → AuthResult Actor × S
  unfolding check_found
  check_token none header s = (try_legacy a.legacy header, s)
  check_token (some (credential_id, secret)) header s =
      check_found secret (a.store.get credential_id s) s

  check_presented : AuthResult String → Option String → S → AuthResult Actor × S
  unfolding check_token parse_token
  check_presented (accepted presented) header s = check_token (parse_token presented) header s
  check_presented (refused failure) header s = (refused failure, s)
  check_presented invalid header s = (invalid, s)

  -- `CredentialAuthenticator.authenticate`
  unfoldable pub authenticate : Option String → S → AuthResult Actor × S
  unfolding check_presented parse_bearer
  authenticate header s = check_presented (parse_bearer header) header s

-- Five minutes.
abbrev pub last_used_resolution : ℕ
last_used_resolution = 300000000

abbrev pub is_recent : Option ℕ → ℕ → Bool
is_recent none now = false
is_recent (some previous) now = ltb (now - previous) last_used_resolution

-- `_record_last_used` of the API; a moment before the previous use is recent too.
unfoldable pub record_last_used : {S : Type 0} → CredentialStore S → ℕ → Credential → S → S
record_last_used store now c s =
    if is_recent c.last_used_at now then s else store.update_last_used c.credential_id now s
