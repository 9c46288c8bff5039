-- ===== src/Tools/Executor/Recording.antt =====
-- The row of a call in the ledger, through the steps of src/scrappy_os/tools/executor.py that come
-- after it is inserted.
use scrappy_os.Tools.Registry.{timed_out}
use scrappy_os.Security.Approvals.{Result, Gate, err, ok}
use scrappy_os.Prelude.{ℕ, String, ◌≡◌, refl, Option, none, some, arith, Bool-cases, inl, inr}
use scrappy_os.Core.Calls.{ToolCall, ToolResult, ApprovalRequest, make_result, ApprovalDecision}
use scrappy_os.Security.Approvals
use scrappy_os.Security.Audit.{LedgerRow, result_row, find_call, find_call-record_result}
use scrappy_os.Security.Policy.{PolicyVerdict}
use scrappy_os.Tools.Executor.{
  World, Occasion, fail_with, Execution, outcome, invalid_result, store_error, conclude_failure,
  failed_result, decline, run_tool, Tool, conclude_run, JsonFields, Ran, asked, started_world,
  resolved, spend, finished, Prompt, success_result, raised, crashed, expired, pending_call,
  spent_call, spent_world, denied, Bool, true, false, if_stored, broken_classification,
  update_result,
}

-- The ledger's row of the call `id` was `row`. An outcome has completed it with the result; an
-- exception has left it as it was.
abbrev pub IsRecorded : String → LedgerRow → Execution × World → Type 0
IsRecorded id row (outcome o, w) = find_call id w.ledger ≡ some (result_row o.result row)
IsRecorded id row (invalid_result, w) = find_call id w.ledger ≡ some row
IsRecorded id row (store_error, w) = find_call id w.ledger ≡ some row
IsRecorded id row (broken_classification, w) = find_call id w.ledger ≡ some row

module _ (row : LedgerRow) where
  pub if_stored-records :
      (id : String) (b : Bool) (w : World) (rest : Execution × World)
      → find_call id w.ledger ≡ some row
      → IsRecorded id row rest
      → IsRecorded id row (if_stored b w rest)
  unfolding if_stored
  if_stored-records id false w rest h k = h
  if_stored-records id true w rest h k = k

  conclude_failure-records :
      (at : Occasion) (r : Option ToolResult) (call : ToolCall) (message : String)
      (v : PolicyVerdict) (approval : Option ApprovalRequest) (w : World)
      → ((s : ToolResult) → r ≡ some s → s.call_id ≡ call.id)
      → find_call call.id w.ledger ≡ some row
      → IsRecorded call.id row (conclude_failure at r call message v approval w)
  unfolding conclude_failure
  conclude_failure-records at none call message v approval w same h = h
  conclude_failure-records at (some r) call message v approval w same h =
      if_stored-records call.id (at.is_stored update_result) w _ h
        (find_call-record_result r call.id w.ledger row (same r refl) h)

  make_result-call_id : (r : ToolResult) (s : ToolResult) → make_result r ≡ some s → s ≡ r
  unfolding make_result
  make_result-call_id r s h = ground arith

  pub fail_with-records :
      (at : Occasion) (call : ToolCall) (message : String) (n : ℕ) (v : PolicyVerdict)
      (approval : Option ApprovalRequest) (w : World)
      → find_call call.id w.ledger ≡ some row
      → IsRecorded call.id row (fail_with at call message n v approval w)
  unfolding fail_with
  fail_with-records at call message n v approval w h =
      let r = failed_result at call message n in
      conclude_failure-records at (make_result r) call message v approval w
        (λ s e. rw (make_result-call_id r s e) refl) h

  conclude_run-records :
      (at : Occasion) (call : ToolCall) (v : PolicyVerdict) (approval : Option ApprovalRequest)
      (r : Ran) (w : World)
      → find_call call.id w.ledger ≡ some row
      → IsRecorded call.id row (conclude_run at call v approval r w)
  unfolding conclude_run
  conclude_run-records at call v approval (finished output) w h =
      if_stored-records call.id (at.is_stored update_result) w _ h
        (find_call-record_result (success_result at call output) call.id w.ledger row refl h)
  conclude_run-records at call v approval timed_out w h =
      fail_with-records at call _ at.duration_ms v approval w h
  conclude_run-records at call v approval (raised message) w h =
      fail_with-records at call message at.duration_ms v approval w h
  conclude_run-records at call v approval (crashed kind message) w h =
      fail_with-records at call _ at.duration_ms v approval w h

  pub run_tool-records :
      (at : Occasion) (call : ToolCall) (tool : Tool) (args : JsonFields) (v : PolicyVerdict)
      (approval : Option ApprovalRequest) (w : World)
      → find_call call.id w.ledger ≡ some row
      → IsRecorded call.id row (run_tool at call tool args v approval w)
  unfolding run_tool
  run_tool-records at call tool args v approval w h =
      conclude_run-records at call v approval (tool.run args) (started_world call tool args w) h

  decline-records :
      (call : ToolCall) (xw : Execution × World)
      → IsRecorded call.id row xw
      → IsRecorded call.id row (decline call xw)
  unfolding decline
  decline-records call (outcome o, w) h = h
  decline-records call (invalid_result, w) h = h
  decline-records call (store_error, w) h = h
  decline-records call (broken_classification, w) h = h

  module _ (at : Occasion) (tool : Tool) (args : JsonFields) (v : PolicyVerdict) (w : World) where
    spend-records :
        (call : ToolCall) (approval : ApprovalRequest) (r : Result ApprovalRequest × Gate)
        → find_call call.id w.ledger ≡ some row
        → IsRecorded call.id row (spend at call tool args v approval r w)
    unfolding spend
    spend-records call approval (err e, g) h =
        fail_with-records at call _ 0 v (some approval) (record w { gate = g }) h
    spend-records call approval (ok a, g) h =
        run_tool-records at (spent_call call) tool args v (some approval)
          (spent_world (spent_call call) approval.id g w) h

    resolved-records :
        (call : ToolCall) (ask : ApprovalRequest) (d : ApprovalDecision)
        (r : Result ApprovalRequest × Gate)
        → find_call call.id w.ledger ≡ some row
        → IsRecorded call.id row (resolved at call tool args v ask d r w)
    unfolding resolved
    resolved-records call ask d (err e, g) h =
        fail_with-records at (record call { approval_state = some expired }) _ 0 v (some ask)
          (record w { gate = g }) h
    resolved-records call ask d (ok approval, g) h = elim (Bool-cases d.approved) [
      | inl granted ↦
          rw granted (spend-records call approval (Approvals.consume at.spent_at approval.id g) h)
      | inr declined ↦ rw declined (
          decline-records (record call { approval_state = some denied }) _
            (fail_with-records at (record call { approval_state = some denied }) _ 0 v
              (some approval) (record w { gate = g }) h))
    ]

    pub asked-records :
        (p : Option Prompt) (call : ToolCall) (r : Result ApprovalRequest × Gate)
        → find_call call.id w.ledger ≡ some row
        → IsRecorded call.id row (asked p at call tool args v r w)
    unfolding asked
    asked-records p call (err e, g) h = h
    asked-records none call (ok r, g) h =
        fail_with-records at (pending_call call r) _ 0 v (some r) (record w { gate = g }) h
    asked-records (some prompt) call (ok r, g) h =
        resolved-records (pending_call call r) r (prompt r g).0
          (Approvals.resolve at.answered_at (prompt r g).0 (prompt r g).1) h
