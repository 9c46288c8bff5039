-- ===== src/Brain/Orchestrator.antt =====
-- src/scrappy_os/brain/orchestrator.py: the loop that drives one objective to its end.
-- `drive` is `_drive` on fuel; each turn of it is one `cycle`, cut where an agent answers.
pub mod Cycle
pub mod Bounded
pub mod Ends
mod Tests
use Prim.Native.String
use scrappy_os.Prelude.{
  ℕ, zero, suc, ◌-◌, String, Bool, true, false, not, ◌||◌, Option, none, some, List, [], ◌∷◌, ◌++◌,
  if◌then◌else◌, leb, ◌==◌,
}
use scrappy_os.Core.Enums.{planning, executing, verifying, risk_value}
use scrappy_os.Core.Identity.{is_empty_list}
use scrappy_os.Core.Values.{str, bool, end, field}
use scrappy_os.Core.Tasks.{Objective, Task, new_task, transition_to}
use scrappy_os.Core.Plans.{Plan, PlanStep, plan_risk}
use scrappy_os.Core.Events.{task_created, plan_created, plan_approved, plan_rejected}
use scrappy_os.Tools.Executor.{World, ToolExecutor, ExecutionOutcome}
use scrappy_os.Brain.Limits.{
  Limits, TaskBudget, from_settings, check_time, check_model_calls, or_else,
}
use scrappy_os.Brain.Run.{
  Failure, limit_exceeded, provider_error, scrappy_error, escaped, Answer, answered, raised,
  Decision, continue_it, replan_it, rollback_it, complete_it, abort_it, decision_text, Verification,
  AgentDecision, Agents, Run, Next, again, ended, stopped, emit_for, decided, with_task, with_env,
  refused_transition, text_or, replan,
}
use scrappy_os.Brain.Endings.{StepsEnd, run_steps, move, ticks, fail_run, complete_run, roll_back}

-- `max(1, budget.max_plan_steps - budget.steps_executed)`
abbrev pub remaining_steps : TaskBudget → ℕ
remaining_steps b = let left = b.max_plan_steps - b.steps_executed in if leb left 1 then 1 else left

abbrev failure_note : Option String → String
failure_note none = ""
failure_note (some t) = if t == "" then "" else String.◌++◌ " Last failure: " t

-- How a run of `_drive` ends.
pub data Drive : Type 0 where
  returned out_of_fuel : Drive
  threw : Failure → Drive

module _ {E : Type 0} (agents : Agents E) (executor : ToolExecutor) where
  judged : Verification → StepsEnd → Run E → Next × Run E
  unfolding replan complete_run fail_run roll_back
  judged v e s = elim v.decision [
    | complete_it ↦ complete_run agents executor v s
    | abort_it ↦ fail_run agents executor (text_or (some v.conclusion) "aborted by verification") s
    | rollback_it ↦ roll_back agents executor (text_or e.step_failure v.reasoning) e.steps_done s
    | d ↦
        replan
          (String.◌++◌ "Verification returned '" (
            String.◌++◌ (decision_text d)
              (String.◌++◌ "': " (String.◌++◌ v.reasoning (failure_note e.step_failure)))))
          s
  ]

  verified : Answer (Verification × AgentDecision) × E → StepsEnd → Run E → Next × Run E
  unfolding judged
  verified (raised f, env) e s = (stopped f, with_env env s)
  verified (answered (v, d), env) e s = judged v e (decided d (with_env env s))

  verify_moved : Option Task → StepsEnd → Run E → Next × Run E
  unfolding verified
  verify_moved none e s = (refused_transition, s)
  verify_moved (some t) e s = verified (agents.verify t s.env) e (with_task t s)

  unless_raised : Option Failure → Run E → Next × Run E → Next × Run E
  unless_raised (some f) s rest = (stopped f, s)
  unless_raised none s rest = rest

  -- The steps have run.
  observed : StepsEnd × Run E → Next × Run E
  unfolding unless_raised verify_moved transition_to
  observed (e, s) =
      unless_raised e.exception s (verify_moved (move agents executor verifying s) e s)

  execute_moved : Option Task → Plan → Run E → Next × Run E
  unfolding observed run_steps
  execute_moved none p s = (refused_transition, s)
  execute_moved (some t) p s = observed (run_steps agents executor p.steps [] none (with_task t s))

  -- The plan is reviewed.
  accepted : Plan → Run E → Next × Run E
  unfolding execute_moved replan transition_to
  accepted p s =
      if not p.approved || is_empty_list p.steps
      then replan
          (String.◌++◌ "Vishnu rejected the plan: " (text_or p.review_notes "no reason given"))
          (emit_for plan_rejected "vishnu"
            (field "plan_id" (str p.id)
              (field "reason" (str (text_or p.review_notes "no acceptable steps")) end))
            s)
      else (let s' = emit_for plan_approved "vishnu" (field "plan_id" (str p.id) end) s in
          execute_moved (move agents executor executing s') p s')

  reviewed : Answer (Plan × AgentDecision) × E → Run E → Next × Run E
  unfolding accepted
  reviewed (raised f, env) s = (stopped f, with_env env s)
  reviewed (answered (p, d), env) s =
      let s' = decided d (with_env env s) in
      let t = s'.task in
      accepted p
        (record s' { env = agents.add_plan p s'.env; task = record t { plan_id = some p.id } })

  planned : Answer (Plan × AgentDecision) × E → Run E → Next × Run E
  unfolding reviewed plan_risk
  planned (raised f, env) s = (stopped f, with_env env s)
  planned (answered (p, d), env) s =
      let s' =
        emit_for plan_created "brahma"
          (field "plan_id" (str p.id) (field "max_risk" (str (risk_value (plan_risk p))) end))
          (decided d (with_env env s)) in
      reviewed (agents.review s'.task p s'.env) s'

  plan_moved : Option Task → Option String → Run E → Next × Run E
  unfolding planned
  plan_moved none feedback s = (refused_transition, s)
  plan_moved (some t) feedback s =
      planned (agents.plan (remaining_steps s.budget) feedback t s.env) (with_task t s)

  pub cycle_checked : Option String → Option String → Run E → Next × Run E
  unfolding plan_moved transition_to
  cycle_checked (some message) feedback s = (stopped (limit_exceeded message), s)
  cycle_checked none feedback s = plan_moved (move agents executor planning s) feedback s

  -- The body of `while True`.
  unfoldable pub cycle : Option String → Run E → Next × Run E
  unfolding cycle_checked check_time check_model_calls
  cycle feedback s =
      cycle_checked
        (or_else (check_time (ticks agents executor s) s.budget) (check_model_calls s.budget))
        feedback s

  cycled : (Option String → Run E → Drive × Run E) → Next × Run E → Drive × Run E
  cycled go_on (again feedback, s) = go_on (some feedback) s
  cycled go_on (ended, s) = (returned, s)
  cycled go_on (stopped f, s) = (threw f, s)

  -- `_drive`
  unfoldable pub drive : ℕ → Option String → Run E → Drive × Run E
  unfolding cycled cycle
  drive zero feedback s = (out_of_fuel, s)
  drive (suc fuel) feedback s = cycled (drive fuel) (cycle feedback s)

  -- The handlers of `run`. An exception out of `_fail` leaves `run`.
  after_fail : Next × Run E → Drive × Run E
  after_fail (again feedback, s) = (returned, s)
  after_fail (ended, s) = (returned, s)
  after_fail (stopped f, s) = (threw f, s)

  handle : Drive × Run E → Drive × Run E
  unfolding after_fail fail_run
  handle (threw (limit_exceeded message), s) =
      after_fail (fail_run agents executor message (record s { stopped_because = some message }))
  handle (threw (provider_error message), s) = after_fail (
      fail_run agents executor (String.◌++◌ "model provider failed: " message)
        (record s { stopped_because = some message }))
  handle (threw (scrappy_error message), s) =
      after_fail (fail_run agents executor message (record s { stopped_because = some message }))
  handle (threw escaped, s) = (threw escaped, s)
  handle (returned, s) = (returned, s)
  handle (out_of_fuel, s) = (out_of_fuel, s)

  abbrev pub start_run : String → Objective → Limits → World → E → Run E
  start_run id objective limits w env =
      emit_for task_created "orchestrator"
        (field "objective" (str objective.text) (
          field "actor" (str objective.actor) (
            field "max_risk" (str (risk_value objective.max_risk))
              (field "dry_run" (bool objective.dry_run) end))))
        (record {
          task = new_task id objective (agents.utc_now env);
          budget = from_settings limits (agents.monotonic env);
          world = w;
          env = env;
          executed = [];
          decisions = [];
          conclusion = "";
          succeeded = false;
          stopped_because = none;
        })

  -- `run`, with fuel for every replan that the settings allow and one cycle more.
  unfoldable pub run : String → Objective → Limits → World → E → Drive × Run E
  unfolding handle drive new_task
  run id objective limits w env =
      handle (drive (suc limits.max_replans) none (start_run id objective limits w env))
