-- ===== src/Security/Audit.antt =====
-- src/scrappy_os/security/audit.py: the ledger of tool calls (`record_call`, `record_result`).
-- The `tool_calls` table is a list of rows. Redaction is a parameter; the digest and the preview of
-- the output are left out. A statement that the store does not carry out is the business of its
-- caller (`if_stored` of the executor).
use scrappy_os.Prelude.{
  ℕ, String, Bool, Option, none, some, List, [], ◌∷◌, ◌++◌, ◌==◌, if◌then◌else◌, ◌≡◌, arith, refl,
  eq_iff,
}
use scrappy_os.Core.Enums.{RiskLevel, PolicyDecision, ApprovalState}
use scrappy_os.Core.Identity.{Actor}
use scrappy_os.Core.Tasks.{actor_type_value}
use scrappy_os.Core.Values.{JsonFields}
use scrappy_os.Core.Calls.{ToolCall, ToolResult}

pub record LedgerRow : Type 0 where
  pub id : String
  pub task_id : String
  pub step_id : Option String
  pub tool_name : String
  pub arguments : JsonFields
  pub actor : String
  pub actor_id : Option String
  pub actor_type : Option String
  pub requested_at : ℕ
  pub risk_level : RiskLevel
  pub policy_decision : Option PolicyDecision
  pub policy_rule : Option String
  pub approval_id : Option String
  pub approval_state : Option ApprovalState
  pub success : Option Bool
  pub duration_ms : Option ℕ
  pub error : Option String

abbrev identity_id : Option Actor → Option String
identity_id none = none
identity_id (some a) = some a.id

abbrev identity_type : Option Actor → Option String
identity_type none = none
identity_type (some a) = some (actor_type_value a.actor_type)

abbrev pub call_row : (JsonFields → JsonFields) → ToolCall → LedgerRow
call_row redact call = record {
  id = call.id;
  task_id = call.task_id;
  step_id = call.step_id;
  tool_name = call.tool_name;
  arguments = redact call.arguments;
  actor = call.actor;
  actor_id = identity_id call.identity;
  actor_type = identity_type call.identity;
  requested_at = call.requested_at;
  risk_level = call.risk_level;
  policy_decision = call.policy_decision;
  policy_rule = call.policy_rule;
  approval_id = call.approval_id;
  approval_state = call.approval_state;
  success = none;
  duration_ms = none;
  error = none;
}

-- The rows with another id.
without_call : String → List LedgerRow → List LedgerRow
without_call id [] = []
without_call id (row ∷ rows) =
    let rest = without_call id rows in if row.id == id then rest else row ∷ rest

-- `INSERT OR REPLACE`
unfoldable pub record_call : (JsonFields → JsonFields) → ToolCall → List LedgerRow → List LedgerRow
unfolding without_call
record_call redact call rows = without_call call.id rows ++ call_row redact call ∷ []

abbrev pub result_row : ToolResult → LedgerRow → LedgerRow
result_row r row = record row {
  success = some r.success;
  duration_ms = some r.duration_ms;
  error = r.error;
}

-- `UPDATE ... WHERE id = ?`
unfoldable pub record_result : ToolResult → List LedgerRow → List LedgerRow
record_result r [] = []
record_result r (row ∷ rows) =
    (if row.id == r.call_id then result_row r row else row) ∷ record_result r rows

unfoldable pub find_call : String → List LedgerRow → Option LedgerRow
find_call id [] = none
find_call id (row ∷ rows) = if row.id == id then some row else find_call id rows

find_call-without :
    (id : String) (rows : List LedgerRow) → find_call id (without_call id rows) ≡ none
unfolding find_call without_call
find_call-without id [] = refl
find_call-without id (row ∷ rows) = ground (arith, find_call-without id rows)

find_call-append :
    (id : String) (rows : List LedgerRow) (row : LedgerRow)
    → find_call id rows ≡ none
    → row.id ≡ id
    → find_call id (rows ++ row ∷ []) ≡ some row
unfolding find_call
find_call-append id [] row h e = ground (arith, eq_iff row.id id)
find_call-append id (r ∷ rows) row h e = ground (arith, find_call-append id rows row)

-- A call that is recorded is found, in the place of whatever had its id.
pub find_call-record_call :
    (redact : JsonFields → JsonFields) (call : ToolCall) (rows : List LedgerRow)
    → find_call call.id (record_call redact call rows) ≡ some (call_row redact call)
unfolding record_call
find_call-record_call redact call rows =
    find_call-append call.id (without_call call.id rows) (call_row redact call)
      (find_call-without call.id rows) refl

-- A result completes the row of its call.
pub find_call-record_result :
    (r : ToolResult) (id : String) (rows : List LedgerRow) (row : LedgerRow)
    → r.call_id ≡ id
    → find_call id rows ≡ some row
    → find_call id (record_result r rows) ≡ some (result_row r row)
unfolding find_call record_result
find_call-record_result r id [] row e h = cc
find_call-record_result r id (x ∷ rows) row e h =
    ground (arith, eq_iff x.id id, eq_iff x.id r.call_id, find_call-record_result r id rows row)
