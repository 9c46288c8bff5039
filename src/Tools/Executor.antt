-- ===== src/Tools/Executor.antt =====
-- src/scrappy_os/tools/executor.py: the one place where a tool can run.
-- The world is the approval gate (its event list is the bus), the ledger of tool calls, and the
-- runs of tools so far. Clock readings and durations are arguments. Log lines, durations in event
-- payloads, and the full wording of some messages are left out.
pub mod Spending
pub mod Gatekeeping
pub mod Recording
pub mod Recorded
mod Tests
use Prim.Native.String
use scrappy_os.Prelude.{
  ℕ, String, Bool, true, false, not, Option, none, some, List, [], ◌∷◌, ◌++◌, map, if◌then◌else◌,
}
use scrappy_os.Core.Enums.{
  RiskLevel, read, destructive, risk_value, risk_max, PolicyDecision, deny, decision_value,
  ApprovalState, pending, denied, expired, consumed,
}
use scrappy_os.Core.Values.{Json, bool, str, JsonFields, end, field}
use scrappy_os.Core.Calls.{ToolCall, ToolResult, make_result, ApprovalRequest, ApprovalDecision}
use scrappy_os.Core.Events.{
  Event, EventType, make_event, tool_requested, tool_approved, tool_started, tool_completed,
  tool_failed, security_denied,
}
use scrappy_os.Security.Approvals
use scrappy_os.Security.Approvals.{
  Gate, Opening, Result, ok, err, ApprovalError, not_found, already_resolved, deadline_passed,
  wrong_phrase, not_approved, duplicate_id, publish,
}
use scrappy_os.Security.Audit.{LedgerRow, record_call, record_result}
use scrappy_os.Security.Policy
use scrappy_os.Security.Policy.{PolicyEngine, PolicyVerdict, verdict, is_denied, needs_approval}
use scrappy_os.Tools.Registry.{
  Tool, ToolRegistry, get_tool, names, Parsed, valid, invalid, Classified, classified, unclassified,
  broken, Ran, finished, timed_out, raised, crashed,
}

pub record World : Type 0 where
  pub gate : Gate
  pub ledger : List LedgerRow
  pub runs : List (String × JsonFields)

-- The answer of the interactive prompt, and the gate as it is by then: other tasks run while a
-- human thinks.
abbrev pub Prompt : Type 0
Prompt = ApprovalRequest → Gate → ApprovalDecision × Gate

-- The executor's collaborators and settings; `explain` gives the reason of a verdict, a text for
-- people.
pub record ToolExecutor : Type 0 where
  pub registry : ToolRegistry
  pub policy : PolicyEngine
  pub opening : Opening
  pub explain : ToolCall → PolicyVerdict → String
  pub prompt : Option Prompt

-- The writes of one execution to the ledger: the row of the call, that row again where the call is
-- refused, and its result.
pub data Statement : Type 0 where
  insert_call insert_refused update_result : Statement

-- One execution's limits, its fresh approval id, its clock readings, and which of its writes to the
-- ledger the store carries out; the others raise.
pub record Occasion : Type 0 where
  pub max_risk : RiskLevel
  pub dry_run : Bool
  pub approval_id : String
  pub started_at : ℕ
  pub asked_at : ℕ
  pub answered_at : ℕ
  pub spent_at : ℕ
  pub duration_ms : ℕ
  pub is_stored : Statement → Bool

pub record ExecutionOutcome : Type 0 where
  pub call : ToolCall
  pub result : ToolResult
  pub verdict : PolicyVerdict
  pub approval : Option ApprovalRequest

-- `execute` returns an outcome, or lets an exception out: a failed result without a message is
-- refused by its model, a write to the ledger or a taken approval id is an error of the store, and
-- a classification may raise what is no `ScrappyError`.
pub data Execution : Type 0 where
  outcome : ExecutionOutcome → Execution
  invalid_result : Execution
  store_error : Execution
  broken_classification : Execution

-- A write to the ledger: where it raises, the world stays as it was and the execution ends.
pub if_stored : Bool → World → Execution × World → Execution × World
if_stored false w rest = (store_error, w)
if_stored true w rest = rest

abbrev emit_call : EventType → String → ToolCall → JsonFields → World → World
emit_call event_type component call payload w = record w {
  gate = publish (make_event event_type (some call.task_id) component call.identity payload) w.gate;
}

abbrev call_fields : ToolCall → RiskLevel → JsonFields → JsonFields
call_fields call risk rest =
    field "call_id" (str call.id)
      (field "tool_name" (str call.tool_name) (field "risk" (str (risk_value risk)) rest))

abbrev failed_result : Occasion → ToolCall → String → ℕ → ToolResult
failed_result at call message duration = record {
  call_id = call.id;
  task_id = call.task_id;
  tool_name = call.tool_name;
  success = false;
  started_at = at.started_at;
  duration_ms = duration;
  output = end;
  error = some message;
}

-- `_finish_failure`
abbrev finish_failure : ToolCall → ToolResult → String → World → World
finish_failure call r message w =
    emit_call tool_failed "executor" call
      (call_fields call call.risk_level
        (field "success" (bool false) (field "error" (str message) end)))
      (record w { ledger = record_result r w.ledger })

conclude_failure :
    Occasion
    → Option ToolResult
    → ToolCall
    → String
    → PolicyVerdict
    → Option ApprovalRequest
    → World
    → Execution × World
unfolding if_stored
conclude_failure at none call message v approval w = (invalid_result, w)
conclude_failure at (some r) call message v approval w = if_stored (at.is_stored update_result) w (
  outcome (record { call = call; result = r; verdict = v; approval = approval }),
  finish_failure call r message w,
)

-- `_failure`, `_finish_failure` and the return that follows them.
unfoldable pub fail_with :
    Occasion
    → ToolCall
    → String
    → ℕ
    → PolicyVerdict
    → Option ApprovalRequest
    → World
    → Execution × World
unfolding conclude_failure make_result make_event record_result
fail_with at call message duration v approval w =
    conclude_failure at (make_result (failed_result at call message duration)) call message v
      approval w

abbrev pub denial_text : ToolExecutor → ToolCall → PolicyVerdict → String
denial_text x call v =
    String.◌++◌ "denied by policy (" (String.◌++◌ v.rule (String.◌++◌ "): " (x.explain call v)))

-- `_refuse` once the call is recorded.
refused : ToolExecutor → Occasion → ToolCall → PolicyVerdict → World → Execution × World
unfolding if_stored make_event record_result
refused x at call v w =
    let r = failed_result at call (denial_text x call v) 0 in
    if_stored (at.is_stored update_result) w (
      outcome (record { call = call; result = r; verdict = v; approval = none }),
      emit_call security_denied "policy" call
          (field "tool_name" (str call.tool_name) (
            field "risk" (str (risk_value v.risk)) (
              field "decision" (str (decision_value deny)) (
                field "rule" (str v.rule)
                  (field "reason" (str (x.explain call v)) (field "success" (bool false) end))))))
          (record w { ledger = record_result r w.ledger }),
    )

abbrev pub refused_call : ToolCall → PolicyVerdict → ToolCall
refused_call call v = record call {
  policy_decision = some deny;
  policy_rule = some v.rule;
  risk_level = v.risk;
}

-- `_refuse`
unfoldable pub refuse :
    ToolExecutor → Occasion → ToolCall → PolicyVerdict → World → Execution × World
unfolding if_stored refused record_call
refuse x at call v w =
    let call' = refused_call call v in
    if_stored (at.is_stored insert_refused) w
      (refused x at call' v (record w { ledger = record_call x.opening.redact call' w.ledger }))

abbrev success_result : Occasion → ToolCall → JsonFields → ToolResult
success_result at call output = record {
  call_id = call.id;
  task_id = call.task_id;
  tool_name = call.tool_name;
  success = true;
  started_at = at.started_at;
  duration_ms = at.duration_ms;
  output = output;
  error = none;
}

-- What `execute` makes of the way in which the tool ended.
conclude_run :
    Occasion → ToolCall → PolicyVerdict → Option ApprovalRequest → Ran → World → Execution × World
unfolding if_stored fail_with make_event record_result
conclude_run at call v approval (finished output) w =
    let r = success_result at call output in
    if_stored (at.is_stored update_result) w (
      outcome (record { call = call; result = r; verdict = v; approval = approval }),
      emit_call tool_completed "executor" call
          (call_fields call call.risk_level (field "success" (bool true) end))
          (record w { ledger = record_result r w.ledger }),
    )
conclude_run at call v approval timed_out w =
    fail_with at call (String.◌++◌ call.tool_name " exceeded its budget") at.duration_ms v approval
      w
conclude_run at call v approval (raised message) w =
    fail_with at call message at.duration_ms v approval w
conclude_run at call v approval (crashed kind message) w =
    fail_with at call (String.◌++◌ kind (String.◌++◌ ": " message)) at.duration_ms v approval w

abbrev pub started_world : ToolCall → Tool → JsonFields → World → World
started_world call tool args w =
    let w' = emit_call tool_started "executor" call (call_fields call call.risk_level end) w in
    record w' { runs = w'.runs ++ (tool.name, args) ∷ [] }

-- Step 7: the tool runs.
unfoldable pub run_tool :
    Occasion
    → ToolCall
    → Tool
    → JsonFields
    → PolicyVerdict
    → Option ApprovalRequest
    → World
    → Execution × World
unfolding conclude_run make_event
run_tool at call tool args v approval w =
    conclude_run at call v approval (tool.run args) (started_world call tool args w)

abbrev pub error_message : ApprovalError → String
error_message not_found = "No approval request"
error_message already_resolved = "Approval is already resolved"
error_message deadline_passed = "Approval expired"
error_message wrong_phrase = "Destructive operations require the exact confirmation phrase"
error_message not_approved = "Approval is not approved"
error_message duplicate_id = "Approval id is taken"

abbrev pub spent_call : ToolCall → ToolCall
spent_call call = record call { approval_state = some consumed }

abbrev pub pending_call : ToolCall → ApprovalRequest → ToolCall
pending_call call r = record call { approval_id = some r.id; approval_state = some pending }

abbrev pub spent_world : ToolCall → String → Gate → World → World
spent_world call id g w = record w {
  gate =
      publish
        (make_event tool_approved (some call.task_id) "executor" none
          (call_fields call call.risk_level (field "approval_id" (str id) end)))
        g;
}

-- Step 6 once `consume` has answered.
spend :
    Occasion
    → ToolCall
    → Tool
    → JsonFields
    → PolicyVerdict
    → ApprovalRequest
    → Result ApprovalRequest × Gate
    → World
    → Execution × World
unfolding run_tool fail_with make_event
spend at call tool args v approval (err e, g) w =
    fail_with at call (error_message e) 0 v (some approval) (record w { gate = g })
spend at call tool args v approval (ok _, g) w =
    run_tool at (spent_call call) tool args v (some approval)
      (spent_world (spent_call call) approval.id g w)

-- The operator's answer is no: the event that follows the outcome.
decline : ToolCall → Execution × World → Execution × World
decline call (outcome o, w) = (
  outcome o,
  record w {
    gate =
        publish
          (make_event security_denied (some call.task_id) "approvals" none (
            field "tool_name" (str call.tool_name) (
              field "risk" (str (risk_value call.risk_level)) (
                field "decision" (str (decision_value deny))
                  (field "reason" (str "declined by operator") end)))))
          w.gate;
  },
)
decline call (x, w) = (x, w)

-- Step 5 once `resolve` has answered: `asked` is the request of this call, and what `resolve`
-- returns takes its place.
resolved :
    Occasion
    → ToolCall
    → Tool
    → JsonFields
    → PolicyVerdict
    → ApprovalRequest
    → ApprovalDecision
    → Result ApprovalRequest × Gate
    → World
    → Execution × World
unfolding spend decline fail_with Approvals.consume
resolved at call tool args v asked d (err e, g) w =
    fail_with at (record call { approval_state = some expired }) (error_message e) 0 v (some asked)
      (record w { gate = g })
resolved at call tool args v asked d (ok approval, g) w =
    let refused = record call { approval_state = some denied } in
    if d.approved
    then spend at call tool args v approval (Approvals.consume at.spent_at approval.id g) w
    else decline refused (
        fail_with at refused (String.◌++◌ "Operator declined " call.tool_name) 0 v (some approval)
          (record w { gate = g }))

-- Step 5 once the request is open.
pub asked :
    Option Prompt
    → Occasion
    → ToolCall
    → Tool
    → JsonFields
    → PolicyVerdict
    → Result ApprovalRequest × Gate
    → World
    → Execution × World
unfolding resolved fail_with Approvals.resolve
asked p at call tool args v (err e, g) w = (store_error, record w { gate = g })
asked none at call tool args v (ok r, g) w =
    fail_with at (pending_call call r) (String.◌++◌ "Approval is required for " call.tool_name) 0 v
      (some r) (record w { gate = g })
asked (some prompt) at call tool args v (ok r, g) w =
    let (d, g') = prompt r g in
    resolved at (pending_call call r) tool args v r d (Approvals.resolve at.answered_at d g') w

-- Steps 4 to 7, after the verdict is recorded.
dispatch :
    ToolExecutor
    → Occasion
    → ToolCall
    → Tool
    → JsonFields
    → String
    → PolicyVerdict
    → World
    → Execution × World
unfolding refuse asked run_tool Approvals.request
dispatch x at call tool args reason v w =
    if is_denied v
    then refuse x at call v w
    else if needs_approval v
    then asked x.prompt at call tool args v
        (Approvals.request x.opening at.approval_id at.asked_at call call.risk_level reason
          v.requires_confirmation_phrase w.gate)
        w
    else run_tool at call tool args v none w

-- Step 3: the arguments' own risk, or the tool's ceiling where classification failed.
abbrev pub dynamic_risk : Tool → Classified → RiskLevel
dynamic_risk tool (classified risk reason) = risk
dynamic_risk tool (unclassified message) = tool.risk
dynamic_risk tool broken = tool.risk

abbrev pub effective_risk : Tool → JsonFields → RiskLevel
effective_risk tool args = risk_max (dynamic_risk tool (tool.classify args) ∷ read ∷ [])

abbrev pub context_of :
    ToolExecutor → Occasion → ToolCall → Tool → JsonFields → Policy.PolicyContext
context_of x at call tool args = record {
  max_risk = at.max_risk;
  dry_run = at.dry_run;
  known_tools = names x.registry;
  disabled_tools = x.registry.disabled;
  paths = tool.affected_paths args;
  actor = call.identity;
}

-- The verdict of step 4.
unfoldable pub verdict_on : ToolExecutor → Occasion → ToolCall → Tool → JsonFields → PolicyVerdict
unfolding Policy.evaluate risk_max
verdict_on x at call tool args =
    Policy.evaluate x.policy call (effective_risk tool args) (context_of x at call tool args)

abbrev pub decided_world : ToolExecutor → ToolCall → PolicyVerdict → World → World
decided_world x call v w =
    emit_call tool_requested "executor" call
      (call_fields call call.risk_level
        (field "decision" (str (decision_value v.decision)) (field "rule" (str v.rule) end)))
      (record w { ledger = record_call x.opening.redact call w.ledger })

abbrev pub decided_call : ToolCall → RiskLevel → PolicyVerdict → ToolCall
decided_call call risk v = record call {
  risk_level = risk;
  policy_decision = some v.decision;
  policy_rule = some v.rule;
}

pub unless_broken : Classified → World → Execution × World → Execution × World
unless_broken broken w rest = (broken_classification, w)
unless_broken c w rest = rest

-- Steps 3 and 4.
unfoldable pub decide :
    ToolExecutor → Occasion → ToolCall → Tool → JsonFields → World → Execution × World
unfolding unless_broken if_stored dispatch verdict_on record_call make_event risk_max
decide x at call tool args w =
    let v = verdict_on x at call tool args in
    let call' = decided_call call (effective_risk tool args) v in
    unless_broken (tool.classify args) w (
      if_stored (at.is_stored insert_call) w
        (dispatch x at call' tool args (x.explain call' v) v (decided_world x call' v w)))

-- Step 2 once the arguments are validated.
validated : ToolExecutor → Occasion → ToolCall → Tool → Parsed → World → Execution × World
unfolding if_stored decide fail_with record_call
validated x at call tool (valid args) w = decide x at call tool args w
validated x at call tool (invalid message) w =
    let call' = record call { risk_level = tool.risk } in
    if_stored (at.is_stored insert_call) w (
      fail_with at call' message 0 (verdict deny tool.risk "invalid-arguments") none
        (record w { ledger = record_call x.opening.redact call' w.ledger }))

-- Step 1 once the tool is looked up.
found : ToolExecutor → Occasion → ToolCall → Option Tool → World → Execution × World
unfolding validated refuse
found x at call none w = refuse x at call (verdict deny destructive "unknown-tool") w
found x at call (some tool) w = validated x at call tool (tool.parse_arguments call.arguments) w

unfoldable pub execute : ToolExecutor → Occasion → ToolCall → World → Execution × World
unfolding found get_tool
execute x at call w = found x at call (get_tool call.tool_name x.registry) w
