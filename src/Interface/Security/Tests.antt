-- ===== src/Interface/Security/Tests.antt =====
-- Tests of interface/security.py with an authenticator that knows one header.
use scrappy_os.Prelude.{
  ℕ, String, ◌≡◌, ◌↔◌, refl, true, false, Option, none, some, List, [], ◌∷◌, ◌==◌, if◌then◌else◌,
}
use scrappy_os.Core.Identity.{
  Actor, system_read, task_create, human, bearer_token, is_no_method, has_scope,
}
use scrappy_os.Security.Authz.{is_known_scope}
use scrappy_os.Security.Authn.{AuthResult, accepted, fail, missing_credential, unknown_credential}
use scrappy_os.Interface.Security.{
  Request, Site, RequestState, known, http_error, require_scope, optional_identity,
  anonymous_context,
}
use scrappy_os.Interface.Security.Scopes.{single_header, granted_context, require_scope-known_iff}

abbrev kk : Actor
kk = record {
  id = "kk";
  actor_type = human;
  display_name = none;
  scopes = system_read ∷ [];
  auth_method = bearer_token;
  metadata = [];
}

abbrev one_header : Option String → ℕ → AuthResult Actor × ℕ
one_header none n = (fail missing_credential "authentication required", n)
one_header (some h) n =
    if h == "Bearer good" then (accepted kk, 1) else (fail unknown_credential "not recognised", n)

abbrev toy_site : Site ℕ
toy_site = record {
  authenticate = one_header;
  codec = record {
    texts = record { redact_text = λ s. s; decimal = λ n. "many" };
    dumps = λ fields. "{}";
    sha256 = λ s. s;
    repr = λ v. "?";
    draw = λ n. ("id", n);
  };
  records = true;
}

abbrev request_with : List String → Request
request_with headers = record {
  authorization = headers;
  method = "GET";
  path = "/tasks";
  peer = none;
  fresh_id = "r1";
}

abbrev idle : RequestState ℕ
idle = record { world = 0; trail = []; security = none }

require_scope-doubled :
    (require_scope toy_site system_read (request_with ("Bearer good" ∷ "Bearer good" ∷ [])) idle).0
    ≡ http_error 401 "authentication required"
unfolding require_scope
require_scope-doubled = refl

require_scope-lacking :
    (require_scope toy_site task_create (request_with ("Bearer good" ∷ [])) idle).0
    ≡ http_error 403 "task:create"
unfolding require_scope is_known_scope has_scope
require_scope-lacking = refl

optional_identity-bad :
    (optional_identity toy_site (request_with ("Bearer bad" ∷ [])) idle).0
    ≡ known (anonymous_context toy_site (request_with ("Bearer bad" ∷ [])))
unfolding optional_identity
optional_identity-bad = refl

require_scope-known_iff_example :
    ((require_scope toy_site system_read (request_with ("Bearer good" ∷ [])) idle).0
      ≡ known (granted_context (request_with ("Bearer good" ∷ [])) system_read kk))
    ↔ ((header : Option String) × (a : Actor) × (single_header ("Bearer good" ∷ []) ≡ some header)
        × ((one_header header 0).0 ≡ accepted a)
        × (is_no_method a.auth_method ≡ false)
        × (has_scope a system_read ≡ true)
        × (granted_context (request_with ("Bearer good" ∷ [])) system_read a
            ≡ granted_context (request_with ("Bearer good" ∷ [])) system_read kk))
require_scope-known_iff_example =
    require_scope-known_iff toy_site system_read (request_with ("Bearer good" ∷ [])) idle
      (granted_context (request_with ("Bearer good" ∷ [])) system_read kk) refl
