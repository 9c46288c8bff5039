-- ===== src/Security/AuditEvents/Attribution.antt =====
-- From an event on the bus to the identity columns of its row.
use scrappy_os.Prelude.{String, ◌≡◌, ◌≢◌, refl, Option, none, some, List, [], ◌∷◌, ◌++◌, length}
use scrappy_os.Core.Identity.{
  Actor, ActorType, human, service, node, system, AuthMethod, no_method, bearer_token,
  local_process, internal,
}
use scrappy_os.Prelude.Text.{text-filled}
use scrappy_os.Core.Tasks.{actor_type_value}
use scrappy_os.Core.Values.{str, JsonFields}
use scrappy_os.Core.Events.{EventType, auth_method_value, make_event}
use scrappy_os.Security.AuditEvents.{
  AuditRow, Codec, audit_row, record_event, get_field, optional_str, audited, on_event,
}

type-filled :
    (t : ActorType) → optional_str (some (str (actor_type_value t))) ≡ some (actor_type_value t)
type-filled human = refl
type-filled service = refl
type-filled node = refl
type-filled system = refl

method-filled :
    (m : AuthMethod) → optional_str (some (str (auth_method_value m))) ≡ some (auth_method_value m)
method-filled no_method = refl
method-filled bearer_token = refl
method-filled local_process = refl
method-filled internal = refl

-- An event that is published for an identity is recorded in one new row, which names the id, the type
-- and the authentication of that identity, if the payload has no such fields of its own and the id
-- is not empty.
pub on_event-make_event :
    (k : Codec) (event_type : EventType) (task_id : Option String) (component : String) (a : Actor)
    (payload : JsonFields) (rows : List AuditRow)
    → a.id ≢ ""
    → get_field "actor_id" payload ≡ none
    → get_field "actor_type" payload ≡ none
    → get_field "auth_method" payload ≡ none
    → (row : AuditRow) × (on_event k (make_event event_type task_id component (some a) payload) rows
        ≡ rows ++ row ∷ [])
      × (row.event.actor_id ≡ some a.id)
      × (row.event.actor_type ≡ some (actor_type_value a.actor_type))
      × (row.event.auth_method ≡ some (auth_method_value a.auth_method))
unfolding on_event record_event audited make_event get_field
on_event-make_event k event_type task_id component a payload rows filled no_id no_type no_meth = (
  audit_row k (audited k (make_event event_type task_id component (some a) payload) (length rows)),
  refl,
  rw no_id (rw (text-filled a.id filled) refl),
  rw no_type (type-filled a.actor_type),
  rw no_meth (method-filled a.auth_method),
)
