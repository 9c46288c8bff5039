-- ===== src/Security/Authn/Tests.antt =====
-- Tests of security/authn.py over a table of credentials.
use scrappy_os.Prelude.{String, ◌≡◌, ◌≢◌, ◌↔◌, refl, Option, none, some, true, List, [], ◌∷◌, arith}
use scrappy_os.Core.Identity.{Actor, service, system_read, bearer_token}
use scrappy_os.Security.Credentials.{
  Issue, IssuedCredential, issue_credential, parse_token, verify_secret,
}
use scrappy_os.Security.Credentials.Issues.{issued_for, issued_actor}
use scrappy_os.Security.CredentialProtocol.Replay.{run}
use scrappy_os.Security.CredentialProtocol.Revocation.{spares, revocation}
use scrappy_os.Security.CredentialStore.{CredentialRow, get, create}
use scrappy_os.Security.CredentialStore.Laws.{sqlite_store}
use scrappy_os.Security.CredentialStore.Samples.{toy_hmac, old_id, old_row, busy_ops}
use scrappy_os.Security.Authn.{
  accepted, refused, AuthenticationFailed, unknown_credential, AuthFailureDetail,
  no_such_credential, secret_mismatch, parse_bearer, malformed_credential, TokenCredential,
  static_authenticate, token_actor, CredentialAuthenticator, authenticate, unknown, fail,
  record_last_used,
}
use scrappy_os.Security.Authn.Headers.{is_solid, bearer_header}
use scrappy_os.Security.Authn.Refusals.{refused_alike}
use scrappy_os.Security.Authn.Static.{find_last, static_authenticate_iff}
use scrappy_os.Security.Authn.Issued.{issued_accepted}
use scrappy_os.Security.Authn.Revoked.{revoked_refused}

abbrev toy_sha : String → String
toy_sha s = s

abbrev sample_authenticator : CredentialAuthenticator (List CredentialRow)
sample_authenticator = record {
  store = sqlite_store;
  pepper = "pepper";
  legacy = none;
  on_authenticated = some (record_last_used sqlite_store 100);
  now = 100;
}

abbrev old_token : String
old_token = "scrp_0123456789ab_abc"

abbrev guess_header : Option String
guess_header = some "Bearer scrp_0123456789ab_guess"

abbrev mismatch : AuthenticationFailed
mismatch = record {
  reason = unknown_credential;
  message = "the presented credential is not recognised";
  detail = some secret_mismatch;
}

abbrev missing : AuthenticationFailed
missing = record mismatch { detail = some no_such_credential }

parse_bearer-basic :
    parse_bearer (some "Basic abc")
    ≡ fail malformed_credential "malformed Authorization header: expected 'Bearer <token>'"
unfolding parse_bearer
parse_bearer-basic = refl

parse_bearer-spaces : parse_bearer (some " bEARER   abc ") ≡ accepted "abc"
unfolding parse_bearer
parse_bearer-spaces = refl

guess-mismatch :
    (authenticate toy_hmac sample_authenticator guess_header (old_row ∷ [])).0 ≡ refused mismatch
unfolding authenticate parse_token get verify_secret
guess-mismatch = refl

guess-missing : (authenticate toy_hmac sample_authenticator guess_header []).0 ≡ refused missing
unfolding authenticate parse_token get verify_secret
guess-missing = refl

refused_alike_example : (mismatch.reason ≡ missing.reason) × (mismatch.message ≡ missing.message)
refused_alike_example =
    refused_alike toy_hmac sample_authenticator guess_header (old_row ∷ []) [] mismatch missing
      guess-mismatch guess-missing

abbrev two_tokens : List TokenCredential
two_tokens =
    record {
      token = "first-token";
      actor_id = "a";
      actor_type = service;
      scopes = [];
      display_name = none;
    }
    ∷ record {
      token = "other-token";
      actor_id = "b";
      actor_type = service;
      scopes = [];
      display_name = none;
    }
    ∷ []

abbrev sample_actor : Actor
sample_actor = record {
  id = "a";
  actor_type = service;
  display_name = none;
  scopes = [];
  auth_method = bearer_token;
  metadata = [];
}

static_authenticate_iff_example :
    (static_authenticate toy_sha two_tokens (some "Bearer first-token") ≡ accepted sample_actor) ↔ (
      (token : String) × (c : TokenCredential) × (parse_bearer (some "Bearer first-token")
        ≡ accepted token)
      × (find_last toy_sha (toy_sha token) two_tokens ≡ some c)
      × (token_actor c ≡ accepted sample_actor))
static_authenticate_iff_example =
    static_authenticate_iff toy_sha two_tokens (some "Bearer first-token") sample_actor

abbrev sample_issue : Issue
sample_issue = record {
  actor_id = "ci";
  actor_type = service;
  scopes = system_read ∷ [];
  display_name = none;
  expires_at = some 900;
  metadata = [];
  now = 10;
  new_id = old_id;
  secret = "abc";
}

abbrev sample_issued : IssuedCredential
sample_issued = record { credential = issued_for sample_issue "pepperabc"; token = old_token }

abbrev issued_row : CredentialRow
issued_row = record {
  credential_id = old_id;
  actor_id = "ci";
  actor_type = service;
  display_name = none;
  scopes = "system:read" ∷ [];
  verifier = "pepperabc";
  created_at = 10;
  expires_at = some 900;
  revoked_at = none;
  last_used_at = none;
  auth_method = bearer_token;
  metadata = [];
}

sample-issued : issue_credential toy_hmac "pepper" sample_issue ≡ some sample_issued
unfolding issue_credential
sample-issued = refl

sample-created : create sample_issued.credential [] ≡ some (issued_row ∷ [])
unfolding create
sample-created = refl

sample-solid : is_solid old_token ≡ true
unfolding is_solid
sample-solid = refl

sample-filled : sample_issue.secret ≢ ""
sample-filled e = cc

issued_accepted_example :
    (authenticate toy_hmac sample_authenticator
      (some (bearer_header old_token))
      (issued_row ∷ [])).0
    ≡ accepted (issued_actor sample_issue)
issued_accepted_example =
    issued_accepted toy_hmac sample_authenticator sample_issue sample_issued [] (issued_row ∷ [])
      sample-issued sample-created sample-filled sample-solid (omega arith) refl

abbrev revoked_rows : List CredentialRow
revoked_rows = record old_row { revoked_at = some 50 } ∷ []

revoked-before : revocation (get old_id revoked_rows) ≡ some 50
unfolding get
revoked-before = refl

busy-spares : spares old_id busy_ops ≡ true
unfolding spares
busy-spares = refl

bearer-old : parse_bearer (some "Bearer scrp_0123456789ab_abc") ≡ accepted old_token
unfolding parse_bearer
bearer-old = refl

parse_token-old : parse_token old_token ≡ some (old_id, "abc")
unfolding parse_token
parse_token-old = refl

revoked_refused_example :
    (why : AuthFailureDetail) × (authenticate toy_hmac sample_authenticator
        (some "Bearer scrp_0123456789ab_abc")
        (run sqlite_store busy_ops revoked_rows)
      ≡ (unknown why, run sqlite_store busy_ops revoked_rows))
revoked_refused_example =
    revoked_refused toy_hmac sample_authenticator busy_ops revoked_rows
      (some "Bearer scrp_0123456789ab_abc") old_token old_id "abc" 50 refl revoked-before
      busy-spares bearer-old parse_token-old
