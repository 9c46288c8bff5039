-- ===== src/Security/Approvals/Tests.antt =====
-- Runs of the approval gate, and the theorems at concrete inputs.
use scrappy_os.Security.Approvals.Race.{
  late_consume, late_resolve, IsSpendableRow, IsAnswerableRow, row_after_all, consume_late,
  resolve_late,
}
use scrappy_os.Security.Approvals.Persistence.{get-request}
use scrappy_os.Security.Approvals.Granted.{WasGranted, spend-needs_grant}
use scrappy_os.Security.Approvals.Edges.{edge, step-edge, run-settled}
use scrappy_os.Prelude.{String, ◌≡◌, ◌↔◌, ◌⊎◌, refl, true, none, some, List, [], ◌∷◌, arith, ◌≤◌}
use scrappy_os.Core.Enums.{read, destructive, approved, pending, ApprovalState, denied, consumed}
use scrappy_os.Core.Calls.{ToolCall, ApprovalDecision}
use scrappy_os.Core.Values.{end}
use scrappy_os.Security.Approvals.{
  ApprovalRow, Gate, Opening, find_row, get, request, resolve, consume, open_request,
  is_destructive, update_row, decide_row,
}
use scrappy_os.Security.Approvals.Trace.{Op, opening, answering, spending, lapsing, step, run}
use scrappy_os.Security.Approvals.Single.{
  spend_count, spend_count-le_one, is_ok, IsSpendable, consume-ok_iff,
}

abbrev call : ToolCall
call = record {
  id = "c1";
  task_id = "t1";
  step_id = none;
  tool_name = "fs.delete";
  arguments = end;
  actor = "agent:brahma";
  identity = none;
  requested_at = 0;
  risk_level = read;
  approval_state = none;
  approval_id = none;
  policy_decision = none;
  policy_rule = none;
}

abbrev opened_by : Opening
opened_by = record { ttl = 100; redact = λ a. a; describe_operation = λ t a. t; reload = λ a. a }

abbrev empty_gate : Gate
empty_gate = record { rows = []; waiters = []; delivered = []; events = [] }

abbrev grant : String → ApprovalDecision
grant phrase = record {
  request_id = "a1";
  approved = true;
  decided_by = "operator";
  identity = none;
  decided_at = 20;
  note = none;
  confirmation_phrase = some phrase;
}

abbrev ask : Op
ask = opening opened_by "a1" 10 call destructive "outside" true

-- A wrong phrase, the right one, a spend, a second spend, and a late refusal.
abbrev calls : List Op
calls =
    ask
    ∷ answering 20 (grant "yes")
    ∷ answering 21 (grant "I ACCEPT THE RISK")
    ∷ spending 30 "a1"
    ∷ spending 31 "a1"
    ∷ lapsing "a1"
    ∷ []

runs : Unit {0}
unfolding run step request resolve consume get spend_count update_row
runs = tt

spent_once : spend_count "a1" calls empty_gate ≡ 1
unfolding runs
spent_once = refl

-- Past the deadline of 110 the approval is worth nothing.
too_late :
    spend_count "a1"
      (ask ∷ answering 20 (grant "I ACCEPT THE RISK") ∷ spending 110 "a1" ∷ [])
      empty_gate
    ≡ 0
unfolding runs
too_late = refl

spend_count-le_one_example : spend_count "a1" calls empty_gate ≤ 1
spend_count-le_one_example = spend_count-le_one "a1" calls empty_gate

spend-needs_grant_example : WasGranted "a1" calls empty_gate
unfolding runs
spend-needs_grant_example =
    spend-needs_grant "a1" calls empty_gate tt (λ e. omega (arith, e, spent_once))

-- A row of the table.
abbrev row_in : ApprovalState → ApprovalRow
row_in state = record {
  id = "a1";
  task_id = "t1";
  call_id = some "c1";
  tool_name = "fs.delete";
  arguments = end;
  risk = destructive;
  reason = "outside";
  summary = "delete";
  requested_at = 10;
  expires_at = some 110;
  state = state;
  decided_by = none;
  decided_at = none;
  note = none;
}

abbrev gate_in : ApprovalState → Gate
gate_in state = record { rows = row_in state ∷ []; waiters = []; delivered = []; events = [] }

consume-ok_iff_example :
    (is_ok (consume 30 "a1" (gate_in approved)).0 ≡ true)
    ↔ IsSpendable 30 (find_row "a1" (gate_in approved).rows)
consume-ok_iff_example = consume-ok_iff 30 "a1" (gate_in approved)

step-edge_example :
    (next : ApprovalRow) × (find_row "a1" (step (lapsing "a1") (gate_in pending)).rows ≡ some next)
    × ((next.state ≡ pending) ⊎ (edge pending next.state ≡ true))
unfolding runs
step-edge_example = step-edge (lapsing "a1") (gate_in pending) "a1" (row_in pending) refl

run-settled_example : find_row "a1" (run calls (gate_in denied)).rows ≡ some (row_in denied)
unfolding runs
run-settled_example = run-settled calls (gate_in denied) "a1" (row_in denied) refl refl

get-request_case :
    (get "a1" (request opened_by "a1" 10 call destructive "outside" true empty_gate).1
      ≡ some (open_request opened_by "a1" 10 call destructive "outside" true))
    ↔ (opened_by.reload (opened_by.redact call.arguments) ≡ opened_by.redact call.arguments)
      × (true ≡ is_destructive destructive)
unfolding runs
get-request_case = get-request opened_by "a1" 10 call destructive "outside" true empty_gate refl

-- An approval that is spent between the read and the update of another spend is spent twice, and one
-- that expired meanwhile is granted.
consume_late_example :
    (((late_consume 31 "a1" (spending 30 "a1" ∷ []) (gate_in approved)).0 ≡ true)
      ↔ IsSpendableRow 31 (row_in approved))
    × ((late_consume 31 "a1" (spending 30 "a1" ∷ []) (gate_in approved)).0 ≡ true
        → find_row "a1" (late_consume 31 "a1" (spending 30 "a1" ∷ []) (gate_in approved)).1.rows
          ≡ some (record (row_after_all (spending 30 "a1" ∷ []) (row_in approved)) {
            state = consumed;
          }))
unfolding runs
consume_late_example =
    consume_late 31 "a1" (spending 30 "a1" ∷ []) (gate_in approved) (row_in approved) refl

resolve_late_example :
    (((late_resolve 20 (grant "I ACCEPT THE RISK") (lapsing "a1" ∷ []) (gate_in pending)).0 ≡ true)
      ↔ IsAnswerableRow 20 (grant "I ACCEPT THE RISK") (row_in pending))
    × ((late_resolve 20 (grant "I ACCEPT THE RISK") (lapsing "a1" ∷ []) (gate_in pending)).0 ≡ true
        → find_row "a1"
            (late_resolve 20
              (grant "I ACCEPT THE RISK")
              (lapsing "a1" ∷ [])
              (gate_in pending)).1.rows
          ≡ some (
              decide_row approved
                (grant "I ACCEPT THE RISK")
                none
                (row_after_all (lapsing "a1" ∷ []) (row_in pending))))
unfolding runs
resolve_late_example =
    resolve_late 20 (grant "I ACCEPT THE RISK") (lapsing "a1" ∷ []) (gate_in pending)
      (row_in pending) refl
