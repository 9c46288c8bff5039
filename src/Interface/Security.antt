-- ===== src/Interface/Security.antt =====
-- src/scrappy_os/interface/security.py: from an HTTP request to an identity with a scope, or to a
-- status code.
-- FastAPI is not modelled: a request is the values that the code reads from it. The audit log may be
-- missing or fail, which is a flag. The authenticator is a parameter over a state of its own.
pub mod Scopes
mod Tests
use scrappy_os.Prelude.{
  ℕ, String, Bool, true, false, Option, none, some, List, [], ◌∷◌, length, if◌then◌else◌, ◌==◌,
}
use scrappy_os.Core.Identity.{Actor, Scope, scope_value, anonymous_actor}
use scrappy_os.Core.Tasks.{actor_type_value, label}
use scrappy_os.Core.Values.{Json, null, bool, str, JsonFields, end, field}
use scrappy_os.Core.Events.{
  EventType, auth_succeeded, auth_failed, authz_denied, auth_method_value, with_identity,
}
use scrappy_os.Security.AuditEvents.{Codec, AuditRow, record_event}
use scrappy_os.Security.Authz.{AuthorizationVerdict, member, evaluate}
use scrappy_os.Security.Authn.{
  AuthResult, accepted, refused, invalid, AuthenticationFailed, AuthFailureReason,
  missing_credential, malformed_credential, unknown_credential, no_credentials_configured,
  AuthFailureDetail, duplicate_header, not_a_credential_token, no_such_credential, secret_mismatch,
  credential_expired, credential_revoked,
}

abbrev pub reason_value : AuthFailureReason → String
reason_value missing_credential = "missing_credential"
reason_value malformed_credential = "malformed_credential"
reason_value unknown_credential = "unknown_credential"
reason_value no_credentials_configured = "no_credentials_configured"

abbrev pub detail_value : AuthFailureDetail → String
detail_value duplicate_header = "duplicate_authorization_header"
detail_value not_a_credential_token = "not_a_credential_token"
detail_value no_such_credential = "no_such_credential"
detail_value secret_mismatch = "secret_mismatch"
detail_value credential_expired = "credential_expired"
detail_value credential_revoked = "credential_revoked"

pub record RequestSecurityContext : Type 0 where
  pub actor : Actor
  pub request_id : String
  pub granted_scope : Option String

-- What is read from a request, and the id that its context draws.
pub record Request : Type 0 where
  pub authorization : List String
  pub method : String
  pub path : String
  pub peer : Option String
  pub fresh_id : String

pub record Site (S : Type 0) : Type 0 where
  pub authenticate : Option String → S → AuthResult Actor × S
  pub codec : Codec
  pub records : Bool

-- The authenticator's state, the audit trail, and `request.state.security`.
pub record RequestState (S : Type 0) : Type 0 where
  pub world : S
  pub trail : List AuditRow
  pub security : Option RequestSecurityContext

-- A context, an `HTTPException` with its status and detail, or another exception.
pub data Reply : Type 0 where
  known : RequestSecurityContext → Reply
  http_error : ℕ → String → Reply
  unhandled : Reply

abbrev peer_value : Option String → Json
peer_value none = null
peer_value (some host) = str host

-- `_request_facts`
abbrev pub request_facts : Request → JsonFields
request_facts q =
    field "method" (str q.method) (field "path" (str q.path) (field "peer" (peer_value q.peer) end))

abbrev detail_field : Option AuthFailureDetail → JsonFields → JsonFields
detail_field none payload = payload
detail_field (some why) payload = field "detail" (str (detail_value why)) payload

abbrev is_success : EventType → Bool
is_success auth_succeeded = true
is_success _ = false

find_entry : String → List (String × String) → Option String
find_entry key [] = none
find_entry key ((k, v) ∷ entries) =
    let rest = find_entry key entries in if k == key then some v else rest

-- `_proving_credential`, in front of the fields of a payload.
abbrev proving_credential : Option String → JsonFields → JsonFields
proving_credential none payload = payload
proving_credential (some id) payload =
    if id == "" then payload else field "credential_id" (str id) payload

abbrev scope_field : Option String → JsonFields → JsonFields
scope_field none payload = payload
scope_field (some scope) payload =
    if scope == "" then payload else field "granted_scope" (str scope) payload

-- `RequestSecurityContext.audit_fields`, in front of the fields of a payload.
abbrev pub context_fields : RequestSecurityContext → JsonFields → JsonFields
context_fields c payload =
    with_identity (some c.actor)
      (field "request_id" (str c.request_id) (scope_field c.granted_scope payload))

-- `AuthorizationVerdict.to_dict`, in front of the fields of a payload, less the reason.
abbrev verdict_fields : AuthorizationVerdict → JsonFields → JsonFields
verdict_fields v payload = field "allowed" (bool v.allowed) (
    field "actor_id" (str v.actor_id)
      (field "scope" (str v.scope) (field "rule" (str v.rule) payload)))

module _ {S : Type 0} (site : Site S) where
  -- `_record`
  unfoldable pub record_security : EventType → Actor → JsonFields → List AuditRow → List AuditRow
  unfolding record_event
  record_security event_type a payload rows =
      if site.records
      then record_event site.codec
          (record {
            id = (site.codec.draw (length rows)).0;
            timestamp = (site.codec.draw (length rows)).1;
            event_type = event_type;
            task_id = none;
            actor = label a;
            actor_id = some a.id;
            actor_type = some (actor_type_value a.actor_type);
            auth_method = some (auth_method_value a.auth_method);
            component = "api.security";
            tool_name = none;
            risk = none;
            decision = none;
            success = some (is_success event_type);
            duration_ms = none;
            payload = payload;
          })
          rows
      else rows

  -- The headers of the request, given to the authenticator if there is one at most.
  presented : List String → S → AuthResult Actor × S
  presented [] s = site.authenticate none s
  presented (header ∷ []) s = site.authenticate (some header) s
  presented (header ∷ other ∷ headers) s = (
    refused (record {
      reason = malformed_credential;
      message = "exactly one Authorization header is permitted";
      detail = some duplicate_header;
    }),
    s,
  )

  authenticated : AuthResult Actor × S → Request → RequestState S → Reply × RequestState S
  unfolding record_security find_entry
  authenticated (refused f, s) q st = (
    http_error 401 "authentication required",
    record st {
      world = s;
      trail =
          record_security auth_failed anonymous_actor
            (field "reason" (str (reason_value f.reason)) (detail_field f.detail (request_facts q)))
            st.trail;
    },
  )
  authenticated (invalid, s) q st = (unhandled, record st { world = s })
  authenticated (accepted a, s) q st =
      let c : RequestSecurityContext = record {
        actor = a;
        request_id = q.fresh_id;
        granted_scope = none;
      } in
      (
        known c,
        record {
          world = s;
          security = some c;
          trail =
              record_security auth_succeeded a
                (with_identity (some a) (
                  proving_credential (find_entry "credential_id" a.metadata)
                    (field "request_id" (str c.request_id) (request_facts q))))
                st.trail;
        },
      )

  request_once : Option RequestSecurityContext → Request → RequestState S → Reply × RequestState S
  unfolding authenticated presented
  request_once (some cached) q st = (known cached, st)
  request_once none q st = authenticated (presented q.authorization st.world) q st

  -- `authenticate_request`
  unfoldable pub authenticate_request : Request → RequestState S → Reply × RequestState S
  unfolding request_once
  authenticate_request q st = request_once st.security q st

  scope_checked : Scope → Request → Reply × RequestState S → Reply × RequestState S
  unfolding record_security evaluate
  scope_checked scope q (http_error status detail, st) = (http_error status detail, st)
  scope_checked scope q (unhandled, st) = (unhandled, st)
  scope_checked scope q (known c, st) =
      let v = evaluate c.actor (member scope) in
      if v.allowed then (known (record c { granted_scope = some (scope_value scope) }), st) else (
        http_error 403 (scope_value scope),
        record st {
          trail =
              record_security authz_denied c.actor
                (context_fields c (verdict_fields v (request_facts q))) st.trail;
        },
      )

  -- The dependency of `require_scope`; of the detail of a 403 the scope that it names.
  unfoldable pub require_scope : Scope → Request → RequestState S → Reply × RequestState S
  unfolding scope_checked authenticate_request
  require_scope scope q st = scope_checked scope q (authenticate_request q st)

  abbrev pub anonymous_context : Request → RequestSecurityContext
  anonymous_context q = record {
    actor = anonymous_actor;
    request_id = q.fresh_id;
    granted_scope = none;
  }

  abbrev or_anonymous : Request → Reply × RequestState S → Reply × RequestState S
  or_anonymous q (http_error status detail, st) = (known (anonymous_context q), st)
  or_anonymous q (known c, st) = (known c, st)
  or_anonymous q (unhandled, st) = (unhandled, st)

  identity_offered : List String → Request → RequestState S → Reply × RequestState S
  unfolding authenticate_request
  identity_offered [] q st = (known (anonymous_context q), st)
  identity_offered (header ∷ headers) q st = or_anonymous q (authenticate_request q st)

  -- `optional_identity`
  unfoldable pub optional_identity : Request → RequestState S → Reply × RequestState S
  unfolding identity_offered
  optional_identity q st = identity_offered q.authorization q st
