-- ===== src/Tools/Executor/Recorded.antt =====
-- What the ledger of src/scrappy_os/tools/executor.py says of a call after `execute`.
use scrappy_os.Tools.Registry.{Classified, classified, unclassified, broken}
use scrappy_os.Prelude.{◌⊎◌, String, ◌≡◌, refl, Option, none, some, Bool-cases, inl, inr}
use scrappy_os.Core.Calls.{ToolCall}
use scrappy_os.Security.Audit.{
  find_call, find_call-record_result, record_call, call_row, find_call-record_call,
}
use scrappy_os.Security.Policy.{PolicyVerdict, is_denied, needs_approval, verdict}
use scrappy_os.Tools.Executor.{
  World, Occasion, Execution, outcome, store_error, failed_result, Tool, decide, ToolExecutor,
  refuse, dispatch, JsonFields, RiskLevel, deny, PolicyDecision, verdict_on, effective_risk,
  decided_call, decided_world, validated, execute, found, get_tool, Parsed, valid, destructive,
  invalid, denial_text, Bool, true, false, if_stored, unless_broken, insert_call, insert_refused,
  update_result, refused, refused_call,
}
use scrappy_os.Tools.Executor.Recording.{
  IsRecorded, if_stored-records, fail_with-records, run_tool-records, asked-records,
}

-- The ledger has a row of the call, as it came in but for its risk, decision and rule.
abbrev pub HasRow : ToolExecutor → ToolCall → Execution × World → Type 0
HasRow x call after =
    (risk : RiskLevel) × (decision : Option PolicyDecision) × (rule : Option String) × IsRecorded
      call.id
      (call_row x.opening.redact
        (record call { risk_level = risk; policy_decision = decision; policy_rule = rule }))
      after

abbrev pub is_outcome : Execution → Bool
is_outcome (outcome o) = true
is_outcome _ = false

-- The call has a row, or an exception came before it had one, and before anything else was done.
abbrev pub IsAudited : ToolExecutor → ToolCall → World → Execution × World → Type 0
IsAudited x call w after = HasRow x call after ⊎ ((is_outcome after.0 ≡ false) × (after.1 ≡ w))

if_stored-IsAudited :
    (x : ToolExecutor) (call : ToolCall) (b : Bool) (w : World) (rest : Execution × World)
    → HasRow x call rest
    → IsAudited x call w (if_stored b w rest)
unfolding if_stored
if_stored-IsAudited x call false w rest h = inr (refl, refl)
if_stored-IsAudited x call true w rest h = inl h

unless_broken-IsAudited :
    (x : ToolExecutor) (call : ToolCall) (c : Classified) (w : World) (rest : Execution × World)
    → IsAudited x call w rest
    → IsAudited x call w (unless_broken c w rest)
unfolding unless_broken
unless_broken-IsAudited x call (classified risk reason) w rest h = h
unless_broken-IsAudited x call (unclassified message) w rest h = h
unless_broken-IsAudited x call broken w rest h = inr (refl, refl)

-- A refusal that has recorded its call.
refused-HasRow :
    (x : ToolExecutor) (at : Occasion) (call : ToolCall) (v : PolicyVerdict) (w : World)
    → HasRow x call (
        refused x at
          (refused_call call v)
          v
          (record w { ledger = record_call x.opening.redact (refused_call call v) w.ledger }))
unfolding refused
refused-HasRow x at call v w =
    let call' = refused_call call v in
    let w' = record w { ledger = record_call x.opening.redact call' w.ledger } in
    let row = call_row x.opening.redact call' in
    let here = find_call-record_call x.opening.redact call' w.ledger in
    let r = failed_result at call' (denial_text x call' v) 0 in
    (
      v.risk,
      some deny,
      some v.rule,
      if_stored-records row call.id (at.is_stored update_result) w' _ here
          (find_call-record_result r call.id w'.ledger row refl here),
    )

refuse-IsAudited :
    (x : ToolExecutor) (at : Occasion) (call : ToolCall) (v : PolicyVerdict) (w : World)
    → IsAudited x call w (refuse x at call v w)
unfolding refuse
refuse-IsAudited x at call v w =
    if_stored-IsAudited x call (at.is_stored insert_refused) w _ (refused-HasRow x at call v w)

if_stored-HasRow :
    (x : ToolExecutor) (call : ToolCall) (b : Bool) (w : World) (rest : Execution × World)
    → HasRow x call (store_error, w)
    → HasRow x call rest
    → HasRow x call (if_stored b w rest)
unfolding if_stored
if_stored-HasRow x call false w rest h k = h
if_stored-HasRow x call true w rest h k = k

refuse-HasRow :
    (x : ToolExecutor) (at : Occasion) (call : ToolCall) (v : PolicyVerdict) (w : World)
    → HasRow x call (store_error, w)
    → HasRow x call (refuse x at call v w)
unfolding refuse
refuse-HasRow x at call v w h =
    if_stored-HasRow x call (at.is_stored insert_refused) w _ h (refused-HasRow x at call v w)

dispatch-HasRow :
    (x : ToolExecutor) (at : Occasion) (call : ToolCall) (tool : Tool) (args : JsonFields)
    (reason : String) (v : PolicyVerdict) (w : World)
    → find_call call.id w.ledger ≡ some (call_row x.opening.redact call)
    → HasRow x call (dispatch x at call tool args reason v w)
unfolding dispatch
dispatch-HasRow x at call tool args reason v w here =
    let row = call_row x.opening.redact call in
    elim (Bool-cases (is_denied v)) [
      | inl out ↦ rw out (
          refuse-HasRow x at call v w
            (call.risk_level, call.policy_decision, call.policy_rule, here))
      | inr passes ↦ elim (Bool-cases (needs_approval v)) [
        | inl asks ↦ rw passes (
            rw asks (
              call.risk_level,
              call.policy_decision,
              call.policy_rule,
              asked-records row at tool args v w x.prompt call _ here,
            ))
        | inr free ↦ rw passes (
            rw free (
              call.risk_level,
              call.policy_decision,
              call.policy_rule,
              run_tool-records row at call tool args v none w here,
            ))
      ]
    ]

decide-IsAudited :
    (x : ToolExecutor) (at : Occasion) (call : ToolCall) (tool : Tool) (args : JsonFields)
    (w : World)
    → IsAudited x call w (decide x at call tool args w)
unfolding decide
decide-IsAudited x at call tool args w =
    let v = verdict_on x at call tool args in
    let call' = decided_call call (effective_risk tool args) v in
    let w' = decided_world x call' v w in
    let rest = dispatch x at call' tool args (x.explain call' v) v w' in
    let (risk, decision, rule, recorded) =
      dispatch-HasRow x at call' tool args (x.explain call' v) v w'
        (find_call-record_call x.opening.redact call' w.ledger) in
    unless_broken-IsAudited x call (tool.classify args) w
      (if_stored (at.is_stored insert_call) w rest)
      (if_stored-IsAudited x call (at.is_stored insert_call) w rest
        (risk, decision, rule, recorded))

validated-IsAudited :
    (x : ToolExecutor) (at : Occasion) (call : ToolCall) (tool : Tool) (parsed : Parsed) (w : World)
    → IsAudited x call w (validated x at call tool parsed w)
unfolding validated
validated-IsAudited x at call tool (valid args) w = decide-IsAudited x at call tool args w
validated-IsAudited x at call tool (invalid message) w =
    let call' = record call { risk_level = tool.risk } in
    let w' = record w { ledger = record_call x.opening.redact call' w.ledger } in
    if_stored-IsAudited x call (at.is_stored insert_call) w _ (
      tool.risk,
      call.policy_decision,
      call.policy_rule,
      fail_with-records (call_row x.opening.redact call') at call' message 0
          (verdict deny tool.risk "invalid-arguments") none w'
          (find_call-record_call x.opening.redact call' w.ledger),
    )

found-IsAudited :
    (x : ToolExecutor) (at : Occasion) (call : ToolCall) (t : Option Tool) (w : World)
    → IsAudited x call w (found x at call t w)
unfolding found
found-IsAudited x at call none w =
    refuse-IsAudited x at call (verdict deny destructive "unknown-tool") w
found-IsAudited x at call (some tool) w =
    validated-IsAudited x at call tool (tool.parse_arguments call.arguments) w

-- An execution leaves a row of the call in the ledger, unless an exception (a write that the store
-- refuses, or a classification that breaks) ends it before the row is written, and then nothing in
-- the world has changed: no tool ran, no approval was opened, no event was sent. An outcome has
-- completed the row with its result; where an exception comes later, the row is left without a
-- result. Apart from the result, the row shows the call as it came in with some risk, decision and
-- rule: its approval id and approval state are those of the incoming call, whatever was approved,
-- declined or spent.
pub execute-records :
    (x : ToolExecutor) (at : Occasion) (call : ToolCall) (w : World)
    → IsAudited x call w (execute x at call w)
unfolding execute
execute-records x at call w = found-IsAudited x at call (get_tool call.tool_name x.registry) w
