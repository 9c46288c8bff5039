-- ===== src/Core/Events.antt =====
-- src/scrappy_os/core/enums.py (`EventType`) and src/scrappy_os/core/events.py (`Event`, `emit`):
-- what is published on the bus. Ids and times of events are left out.
use scrappy_os.Prelude.{String, Option, none, some, List, [], ◌∷◌}
use scrappy_os.Core.Values.{str, arr, JsonItems, nil, cons, JsonFields, field}
use scrappy_os.Core.Tasks.{actor_type_value}
use scrappy_os.Core.Identity.{
  Actor, Scope, scope_value, AuthMethod, no_method, bearer_token, local_process, internal,
}

pub data EventType : Type 0 where
  runtime_started runtime_stopped heartbeat : EventType
  task_created task_completed task_failed task_cancelled : EventType
  plan_created plan_approved plan_rejected : EventType
  tool_requested tool_approved tool_started tool_completed tool_failed : EventType
  approval_requested approval_resolved security_denied : EventType
  auth_succeeded auth_failed authz_denied : EventType
  credential_created credential_rotated credential_revoked credential_pruned : EventType
  agent_decided rollback_started rollback_completed : EventType

pub record Event : Type 0 where
  pub event_type : EventType
  pub task_id : Option String
  pub component : String
  pub payload : JsonFields

abbrev pub auth_method_value : AuthMethod → String
auth_method_value no_method = "none"
auth_method_value bearer_token = "bearer_token"
auth_method_value local_process = "local_process"
auth_method_value internal = "internal"

-- The scopes in the order held; the source sorts them.
abbrev pub scope_items : List Scope → JsonItems
scope_items [] = nil
scope_items (s ∷ scopes) = cons (str (scope_value s)) (scope_items scopes)

-- `Actor.audit_fields`, in front of the fields of a payload.
abbrev pub with_identity : Option Actor → JsonFields → JsonFields
with_identity none payload = payload
with_identity (some a) payload = field "actor_id" (str a.id) (
    field "actor_type" (str (actor_type_value a.actor_type)) (
      field "auth_method" (str (auth_method_value a.auth_method))
        (field "actor_scopes" (arr (scope_items a.scopes)) payload)))

-- The event that `emit` publishes.
unfoldable pub make_event : EventType → Option String → String → Option Actor → JsonFields → Event
make_event event_type task_id component identity payload = record {
  event_type = event_type;
  task_id = task_id;
  component = component;
  payload = with_identity identity payload;
}
