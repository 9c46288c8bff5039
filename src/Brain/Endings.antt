-- ===== src/Brain/Endings.antt =====
-- src/scrappy_os/brain/orchestrator.py: the steps of a plan, and the three ends of a run.
-- `move` is `transition_to` on the task of a run.
pub mod Within
pub mod Active
use Prim.Native.String
use scrappy_os.Prelude.{
  ℕ, String, Bool, true, false, not, ◌&&◌, Option, none, some, List, [], ◌∷◌, ◌++◌, if◌then◌else◌,
}
use scrappy_os.Core.Enums.{rolling_back, completed, failed, is_terminal, TaskState}
use scrappy_os.Core.Values.{str, bool, end, field}
use scrappy_os.Core.Tasks.{Task, transition_to}
use scrappy_os.Core.Plans.{PlanStep}
use scrappy_os.Core.Events.{task_completed, task_failed, rollback_started, rollback_completed}
use scrappy_os.Tools.Executor.{ToolExecutor, ExecutionOutcome}
use scrappy_os.Security.Policy.{is_denied}
use scrappy_os.Brain.Limits.{check_time, check_all, check_steps, or_else, record_step}
use scrappy_os.Brain.Run.{
  Failure, Answer, answered, raised, Verification, Recovery, AgentDecision, Agents, Run, Next,
  ended, stopped, emit_for, decided, with_task, with_env, refused_transition, text_or, execute_step,
}

-- How the steps of a plan came out: those executed, the last failure, and the exception that was
-- raised, if one was.
pub record StepsEnd : Type 0 where
  pub steps_done : List PlanStep
  pub step_failure : Option String
  pub exception : Option Failure

-- What follows the budget check of a step: `go_on` runs the rest of the plan.
abbrev pub Rest : Type 0 → Type 0
Rest E = List PlanStep → Option String → Run E → StepsEnd × Run E

module _ {E : Type 0} where
  abbrev pub count_step : Bool → Run E → Run E
  count_step success s = record s { budget = record_step success s.budget }

  step_result :
      Rest E → List PlanStep → Option String → Answer ExecutionOutcome × Run E → StepsEnd × Run E
  step_result go_on done failure (raised f, s) =
      (record { steps_done = done; step_failure = failure; exception = some f }, s)
  step_result go_on done failure (answered o, s) =
      let s' = count_step o.result.success s in
      if not o.result.success && is_denied o.verdict
      then (record { steps_done = done; step_failure = o.result.error; exception = none }, s')
      else go_on done (if o.result.success then failure else o.result.error) s'

  step_checked :
      Option String → List PlanStep → Option String → Run E → StepsEnd × Run E → StepsEnd × Run E
  step_checked (some message) done failure s rest = (
    record { steps_done = done; step_failure = some message; exception = none },
    record s { stopped_because = some message },
  )
  step_checked none done failure s rest = rest

module _ {E : Type 0} (agents : Agents E) (executor : ToolExecutor) where
  abbrev pub ticks : Run E → ℕ
  ticks s = agents.monotonic s.env

  -- The `for step in reviewed.steps` loop.
  unfoldable pub run_steps : List PlanStep → Rest E
  unfolding step_result step_checked execute_step check_all
  run_steps [] done failure s =
      (record { steps_done = done; step_failure = failure; exception = none }, s)
  run_steps (step ∷ steps) done failure s =
      step_checked (check_all (ticks s) s.budget) done failure s (
        step_result (run_steps steps) (done ++ step ∷ []) failure
          (execute_step agents executor step s))

  abbrev pub move : TaskState → Run E → Option Task
  move target s = transition_to (agents.utc_now s.env) target s.task

  fail_moved : Option Task → String → Run E → Next × Run E
  fail_moved none reason s = (refused_transition, s)
  fail_moved (some t) reason s = (
    ended,
    emit_for task_failed "orchestrator"
        (field "success" (bool false) (field "error" (str reason) end))
        (record s {
          task = t;
          conclusion = agents.failure_summary reason s.env;
          succeeded = false;
        }),
  )

  -- `_fail`
  unfoldable pub fail_run : String → Run E → Next × Run E
  unfolding fail_moved transition_to
  fail_run reason s =
      let t = s.task in
      let t' = record t {
        error = some reason;
        summary = some (agents.failure_summary reason s.env);
      } in
      let s' = with_task t' s in
      if is_terminal t'.state
      then fail_moved (some t') reason s'
      else fail_moved (move failed s') reason s'

  complete_moved : Option Task → String → Run E → Next × Run E
  complete_moved none summary s = (refused_transition, s)
  complete_moved (some t) summary s = (
    ended,
    emit_for task_completed "orchestrator" (field "success" (bool true) end)
        (record s { task = t; conclusion = summary; succeeded = true }),
  )

  -- `_complete`
  unfoldable pub complete_run : Verification → Run E → Next × Run E
  unfolding complete_moved transition_to
  complete_run v s =
      let summary = text_or (some v.conclusion) v.reasoning in
      let t = s.task in
      let s' = with_task (record t { summary = some summary }) s in
      complete_moved (move completed s') summary s'

  recovery_result :
      (Run E → Option Failure × Run E) → Answer ExecutionOutcome × Run E → Option Failure × Run E
  recovery_result go_on (raised f, s) = (some f, s)
  recovery_result go_on (answered o, s) = go_on (count_step o.result.success s)

  recovery_checked : Option String → Run E → Option Failure × Run E → Option Failure × Run E
  recovery_checked (some message) s rest = (none, s)
  recovery_checked none s rest = rest

  -- The loop over the recovery steps, and the exception that was raised, if one was.
  unfoldable pub recover_steps : List PlanStep → Run E → Option Failure × Run E
  unfolding recovery_result recovery_checked execute_step check_time check_steps
  recover_steps [] s = (none, s)
  recover_steps (step ∷ steps) s =
      recovery_checked (or_else (check_time (ticks s) s.budget) (check_steps s.budget)) s
        (recovery_result (recover_steps steps) (execute_step agents executor step s))

  rolled_back : Option Task → String → String → Run E → Next × Run E
  rolled_back none reason summary s = (refused_transition, s)
  rolled_back (some t) reason summary s = (
    ended,
    emit_for task_failed "orchestrator"
        (field "success" (bool false)
          (field "error" (str reason) (field "rolled_back" (bool true) end)))
        (record s { task = t; conclusion = summary; succeeded = false }),
  )

  recovered : String → Recovery → Option Failure × Run E → Next × Run E
  unfolding rolled_back transition_to
  recovered reason r (some f, s) = (stopped f, s)
  recovered reason r (none, s) =
      let s1 =
        emit_for rollback_completed "mahesh" (field "recoverable" (bool r.recoverable) end) s in
      let t = s1.task in
      let s2 = with_task (record t { error = some reason; summary = some r.diagnosis }) s1 in
      rolled_back (move failed s2) reason r.diagnosis s2

  recovery_planned : String → Answer (Recovery × AgentDecision) × E → Run E → Next × Run E
  unfolding recovered recover_steps
  recovery_planned reason (raised e, env) s = (stopped e, with_env env s)
  recovery_planned reason (answered (r, d), env) s =
      recovered reason r (recover_steps r.plan.steps (decided d (with_env env s)))

  rollback_moved : Option Task → String → List PlanStep → Run E → Next × Run E
  unfolding recovery_planned
  rollback_moved none reason done s = (refused_transition, s)
  rollback_moved (some t) reason done s =
      let s' =
        emit_for rollback_started "mahesh" (field "reason" (str reason) end) (with_task t s) in
      recovery_planned reason (agents.recover reason done s'.task s'.env) s'

  -- `_rollback`
  unfoldable pub roll_back : String → List PlanStep → Run E → Next × Run E
  unfolding rollback_moved transition_to
  roll_back reason done s = rollback_moved (move rolling_back s) reason done s
