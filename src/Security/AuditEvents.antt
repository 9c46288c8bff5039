-- ===== src/Security/AuditEvents.antt =====
-- src/scrappy_os/security/audit.py: the `audit_events` table (`record`, `_on_event` and
-- `audit_denied`).
-- The table is a list of rows, in the order of insertion. The JSON encoder, SHA-256, `str` of a
-- value and the id and time that a new event draws are parameters. A duration is its text.
pub mod Attribution
pub mod Content
mod Tests
use Prim.Native.String
use scrappy_os.Prelude.{
  ℕ, String, Bool, true, false, Option, none, some, List, [], ◌∷◌, ◌++◌, ltb, ◌==◌, if◌then◌else◌,
  length,
}
use scrappy_os.Prelude.Text.{first_chars}
use scrappy_os.Core.Enums.{
  RiskLevel, read, write, privileged, destructive, risk_value, PolicyDecision, allow,
  require_approval, deny, decision_value,
}
use scrappy_os.Core.Values.{
  Json, null, bool, num, str, arr, obj, JsonItems, nil, cons, JsonFields, end, field,
}
use scrappy_os.Core.Events.{Event, EventType, security_denied}
use scrappy_os.Observability.Redaction.{Texts, redact_payload}

pub record AuditEvent : Type 0 where
  pub id : String
  pub timestamp : ℕ
  pub event_type : EventType
  pub task_id : Option String
  pub actor : String
  pub actor_id : Option String
  pub actor_type : Option String
  pub auth_method : Option String
  pub component : String
  pub tool_name : Option String
  pub risk : Option RiskLevel
  pub decision : Option PolicyDecision
  pub success : Option Bool
  pub duration_ms : Option String
  pub payload : JsonFields

-- A row; the event in it has no payload of its own.
pub record AuditRow : Type 0 where
  pub event : AuditEvent
  pub payload : String
  pub payload_sha256 : Option String

-- What the log gets from other libraries.
pub record Codec : Type 0 where
  pub texts : Texts
  pub dumps : JsonFields → String
  pub sha256 : String → String
  pub repr : Json → String
  pub draw : ℕ → String × ℕ

abbrev pub max_stored_output_chars : ℕ
max_stored_output_chars = 4000

abbrev pub preview_chars : ℕ
preview_chars = 500

-- What stands in the place of an encoding that is too long.
abbrev pub hashed : Codec → String → JsonFields
hashed k encoded = field "_hashed" (bool true) (
    field "_sha256" (str (k.sha256 encoded)) (
      field "_bytes" (num (k.texts.decimal (String.count encoded)))
        (field "_preview" (str (first_chars preview_chars encoded)) end)))

unfoldable pub encode : Codec → JsonFields → String × Option String
unfolding first_chars
encode k payload =
    let encoded = k.dumps payload in
    if ltb max_stored_output_chars (String.count encoded)
    then (k.dumps (hashed k encoded), some (k.sha256 encoded))
    else (encoded, none)

abbrev pub audit_row : Codec → AuditEvent → AuditRow
audit_row k e =
    let stored = encode k (redact_payload k.texts e.payload) in
    record { event = record e { payload = end }; payload = stored.0; payload_sha256 = stored.1 }

-- `record`
unfoldable pub record_event : Codec → AuditEvent → List AuditRow → List AuditRow
record_event k e rows = rows ++ audit_row k e ∷ []

-- `payload.get(key)`: of a key that stands twice, the last value.
unfoldable pub get_field : String → JsonFields → Option Json
get_field key end = none
get_field key (field k v fields) =
    let rest = get_field key fields in
    elim rest [ some later ↦ some later | none ↦ if k == key then some v else none ]

abbrev pub actor_text : Codec → Option Json → String
actor_text k none = "scrappy"
actor_text k (some (str s)) = s
actor_text k (some v) = k.repr v

abbrev pub optional_str : Option Json → Option String
optional_str (some (str s)) = if s == "" then none else some s
optional_str _ = none

abbrev pub optional_bool : Option Json → Option Bool
optional_bool (some (bool b)) = some b
optional_bool _ = none

abbrev pub optional_float : Option Json → Option String
optional_float (some (num n)) = some n
optional_float _ = none

find_risk : List RiskLevel → String → Option RiskLevel
find_risk [] s = none
find_risk (level ∷ levels) s = if risk_value level == s then some level else find_risk levels s

abbrev pub optional_risk : Option Json → Option RiskLevel
unfolding find_risk
optional_risk (some (str s)) = find_risk (read ∷ write ∷ privileged ∷ destructive ∷ []) s
optional_risk _ = none

find_decision : List PolicyDecision → String → Option PolicyDecision
find_decision [] s = none
find_decision (d ∷ ds) s = if decision_value d == s then some d else find_decision ds s

abbrev pub optional_decision : Option Json → Option PolicyDecision
unfolding find_decision
optional_decision (some (str s)) = find_decision (allow ∷ require_approval ∷ deny ∷ []) s
optional_decision _ = none

-- The event that `_on_event` records.
unfoldable pub audited : Codec → Event → ℕ → AuditEvent
unfolding get_field
audited k e n = record {
  id = (k.draw n).0;
  timestamp = (k.draw n).1;
  event_type = e.event_type;
  task_id = e.task_id;
  actor = actor_text k (get_field "actor" e.payload);
  actor_id = optional_str (get_field "actor_id" e.payload);
  actor_type = optional_str (get_field "actor_type" e.payload);
  auth_method = optional_str (get_field "auth_method" e.payload);
  component = e.component;
  tool_name = optional_str (get_field "tool_name" e.payload);
  risk = optional_risk (get_field "risk" e.payload);
  decision = optional_decision (get_field "decision" e.payload);
  success = optional_bool (get_field "success" e.payload);
  duration_ms = optional_float (get_field "duration_ms" e.payload);
  payload = e.payload;
}

-- `_on_event`
unfoldable pub on_event : Codec → Event → List AuditRow → List AuditRow
unfolding record_event audited
on_event k e rows = record_event k (audited k e (length rows)) rows

-- `audit_denied`
unfoldable pub audit_denied :
    Codec → String → String → RiskLevel → String → String → List AuditRow → List AuditRow
unfolding record_event
audit_denied k task_id tool_name risk rule reason rows =
    record_event k
      (record {
        id = (k.draw (length rows)).0;
        timestamp = (k.draw (length rows)).1;
        event_type = security_denied;
        task_id = some task_id;
        actor = "scrappy";
        actor_id = none;
        actor_type = none;
        auth_method = none;
        component = "policy";
        tool_name = some tool_name;
        risk = some risk;
        decision = some deny;
        success = some false;
        duration_ms = none;
        payload = field "rule" (str rule) (field "reason" (str reason) end);
      })
      rows
