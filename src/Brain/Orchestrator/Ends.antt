-- ===== src/Brain/Orchestrator/Ends.antt =====
-- How a run of the loop leaves its task.
use scrappy_os.Prelude.{
  ℕ, suc, ◌≡◌, refl, String, false, not, ◌||◌, Option, none, some, [], arith, Bool-cases, inl, inr,
  zero, ◌⊎◌,
}
use scrappy_os.Core.Enums.{planning, executing, verifying, risk_value}
use scrappy_os.Core.Identity.{is_empty_list}
use scrappy_os.Core.Values.{str, end, field}
use scrappy_os.Core.Events.{plan_created, plan_approved, plan_rejected}
use scrappy_os.Core.Tasks.{Task, Objective}
use scrappy_os.Core.Plans.{Plan, plan_risk}
use scrappy_os.Tools.Executor.{ToolExecutor, World}
use scrappy_os.Brain.Run.{
  Failure, Agents, Run, Next, again, ended, stopped, Verification, AgentDecision, Answer, answered,
  raised, decided, with_env, with_task, emit_for, text_or, rollback_it, complete_it, abort_it,
}
use scrappy_os.Brain.Endings.{StepsEnd, run_steps, move, fail_run, ticks}
use scrappy_os.Brain.Orchestrator.{
  judged, verified, verify_moved, unless_raised, observed, execute_moved, accepted, reviewed,
  planned, plan_moved, cycle_checked, remaining_steps, cycle, drive, cycled, after_fail, Drive, run,
  handle, returned, threw, out_of_fuel, start_run,
}
use scrappy_os.Brain.Endings.Active.{
  IsActive, IsEnded, NextStands, IsActive-move, run_steps-IsActive, fail_run-ends,
  complete_run-NextStands, roll_back-NextStands, fail_run-NextStands,
}
use scrappy_os.Brain.Orchestrator.Bounded.{is_exhausted, drive-is_exhausted}
use scrappy_os.Brain.Run.{replan, limit_exceeded, provider_error, scrappy_error, escaped}
use scrappy_os.Core.Tasks.{new_task}
use scrappy_os.Brain.Limits.{or_else, check_time, check_model_calls, Limits}

replan-NextStands :
    {E : Type 0} (feedback : String) (s : Run E) → IsActive s → NextStands (replan feedback s)
unfolding replan
replan-NextStands feedback s (a, f) = ground arith

module _ {E : Type 0} (agents : Agents E) (executor : ToolExecutor) where
  judged-NextStands :
      (v : Verification) (e : StepsEnd) (s : Run E)
      → IsActive s
      → NextStands (judged agents executor v e s)
  unfolding judged
  judged-NextStands v e s h =
      elim v.decision
        as (λ d. NextStands (judged agents executor (record v { decision = d }) e s)) [
          | complete_it ↦ complete_run-NextStands agents executor v s h
          | abort_it ↦
              fail_run-NextStands agents executor
                (text_or (some v.conclusion) "aborted by verification") s h
          | rollback_it ↦
              roll_back-NextStands agents executor (text_or e.step_failure v.reasoning) e.steps_done
                s h
          | d ↦ replan-NextStands _ s h
        ]

  verified-NextStands :
      (a : Answer (Verification × AgentDecision) × E) (e : StepsEnd) (s : Run E)
      → IsActive s
      → NextStands (verified agents executor a e s)
  unfolding verified
  verified-NextStands (raised f, env) e s h = h
  verified-NextStands (answered (v, d), env) e s h =
      judged-NextStands v e (decided d (with_env env s)) h

  verify_moved-NextStands :
      (t : Option Task) (e : StepsEnd) (s : Run E)
      → IsActive s
      → ((u : Task) → t ≡ some u → IsActive (with_task u s))
      → NextStands (verify_moved agents executor t e s)
  unfolding verify_moved
  verify_moved-NextStands none e s h k = h
  verify_moved-NextStands (some t) e s h k =
      verified-NextStands (agents.verify t s.env) e (with_task t s) (k t refl)

  unless_raised-NextStands :
      (f : Option Failure) (s : Run E) (rest : Next × Run E)
      → IsActive s
      → NextStands rest
      → NextStands (unless_raised agents executor f s rest)
  unfolding unless_raised
  unless_raised-NextStands (some f) s rest h k = h
  unless_raised-NextStands none s rest h k = k

  observed-NextStands :
      (x : StepsEnd × Run E) → IsActive x.1 → NextStands (observed agents executor x)
  unfolding observed
  observed-NextStands (e, s) h =
      unless_raised-NextStands e.exception s
        (verify_moved agents executor (move agents executor verifying s) e s) h
        (verify_moved-NextStands (move agents executor verifying s) e s h
          (λ u q. IsActive-move agents executor verifying s u refl q h))

  execute_moved-NextStands :
      (t : Option Task) (p : Plan) (s : Run E)
      → IsActive s
      → ((u : Task) → t ≡ some u → IsActive (with_task u s))
      → NextStands (execute_moved agents executor t p s)
  unfolding execute_moved
  execute_moved-NextStands none p s h k = h
  execute_moved-NextStands (some t) p s h k =
      observed-NextStands (run_steps agents executor p.steps [] none (with_task t s))
        (run_steps-IsActive agents executor p.steps [] none (with_task t s) (k t refl))

  accepted-NextStands :
      (p : Plan) (s : Run E) → IsActive s → NextStands (accepted agents executor p s)
  unfolding accepted
  accepted-NextStands p s h =
      let rejected =
        emit_for plan_rejected "vishnu"
          (field "plan_id" (str p.id)
            (field "reason" (str (text_or p.review_notes "no acceptable steps")) end))
          s in
      let approved = emit_for plan_approved "vishnu" (field "plan_id" (str p.id) end) s in
      elim (Bool-cases (not p.approved || is_empty_list p.steps)) [
        | inl bad ↦ rw bad (replan-NextStands _ rejected h)
        | inr good ↦ rw good (
            execute_moved-NextStands (move agents executor executing approved) p approved h
              (λ u q. IsActive-move agents executor executing approved u refl q h))
      ]

  reviewed-NextStands :
      (a : Answer (Plan × AgentDecision) × E) (s : Run E)
      → IsActive s
      → NextStands (reviewed agents executor a s)
  unfolding reviewed
  reviewed-NextStands (raised f, env) s h = h
  reviewed-NextStands (answered (p, d), env) s h =
      let s1 = decided d (with_env env s) in
      let t = s1.task in
      accepted-NextStands p
        (record s1 { env = agents.add_plan p s1.env; task = record t { plan_id = some p.id } }) h

  planned-NextStands :
      (a : Answer (Plan × AgentDecision) × E) (s : Run E)
      → IsActive s
      → NextStands (planned agents executor a s)
  unfolding planned
  planned-NextStands (raised f, env) s h = h
  planned-NextStands (answered (p, d), env) s h =
      let s' =
        emit_for plan_created "brahma"
          (field "plan_id" (str p.id) (field "max_risk" (str (risk_value (plan_risk p))) end))
          (decided d (with_env env s)) in
      reviewed-NextStands (agents.review s'.task p s'.env) s' h

  plan_moved-NextStands :
      (t : Option Task) (feedback : Option String) (s : Run E)
      → IsActive s
      → ((u : Task) → t ≡ some u → IsActive (with_task u s))
      → NextStands (plan_moved agents executor t feedback s)
  unfolding plan_moved
  plan_moved-NextStands none feedback s h k = h
  plan_moved-NextStands (some t) feedback s h k =
      planned-NextStands (agents.plan (remaining_steps s.budget) feedback t s.env) (with_task t s)
        (k t refl)

  cycle_checked-NextStands :
      (c feedback : Option String) (s : Run E)
      → IsActive s
      → NextStands (cycle_checked agents executor c feedback s)
  unfolding cycle_checked
  cycle_checked-NextStands (some message) feedback s h = h
  cycle_checked-NextStands none feedback s h =
      plan_moved-NextStands (move agents executor planning s) feedback s h
        (λ u q. IsActive-move agents executor planning s u refl q h)

  cycle-NextStands :
      (feedback : Option String) (s : Run E)
      → IsActive s
      → NextStands (cycle agents executor feedback s)
  unfolding cycle
  cycle-NextStands feedback s h =
      cycle_checked-NextStands
        (or_else (check_time (ticks agents executor s) s.budget) (check_model_calls s.budget))
        feedback s h

  -- Where the task stands after the loop.
  abbrev pub DriveStands : Drive × Run E → Type 0
  DriveStands (returned, s) = IsEnded s
  DriveStands (out_of_fuel, s) = IsActive s
  DriveStands (threw f, s) = IsActive s

  cycled-DriveStands :
      (go_on : Option String → Run E → Drive × Run E)
      → ((feedback : Option String) (s : Run E) → IsActive s → DriveStands (go_on feedback s))
      → (x : Next × Run E) → NextStands x
      → DriveStands (cycled agents executor go_on x)
  unfolding cycled
  cycled-DriveStands go_on k (again feedback, s) h = k (some feedback) s h
  cycled-DriveStands go_on k (ended, s) h = h
  cycled-DriveStands go_on k (stopped f, s) h = h

  drive-DriveStands :
      (fuel : ℕ) (feedback : Option String) (s : Run E)
      → IsActive s
      → DriveStands (drive agents executor fuel feedback s)
  unfolding drive
  drive-DriveStands zero feedback s h = h
  drive-DriveStands (suc fuel) feedback s h =
      cycled-DriveStands (drive agents executor fuel) (drive-DriveStands fuel)
        (cycle agents executor feedback s) (cycle-NextStands feedback s h)

  -- Where `run` leaves the task: ended, unless an exception that is no `ScrappyError` escaped.
  abbrev pub RunStands : Drive × Run E → Type 0
  RunStands x = ((x.0 ≡ returned) × IsEnded x.1) ⊎ ((x.0 ≡ threw escaped) × IsActive x.1)

  after_fail-RunStands :
      (x : Next × Run E) → x.0 ≡ ended → IsEnded x.1 → RunStands (after_fail agents executor x)
  unfolding after_fail
  after_fail-RunStands (again feedback, s) e i = inl (refl, i)
  after_fail-RunStands (ended, s) e i = inl (refl, i)
  after_fail-RunStands (stopped f, s) e i = ground arith

  failed-RunStands :
      (reason : String) (s : Run E)
      → IsActive s
      → RunStands (after_fail agents executor (fail_run agents executor reason s))
  unfolding after_fail
  failed-RunStands reason s h =
      let (e, i) = fail_run-ends agents executor reason s h in
      after_fail-RunStands (fail_run agents executor reason s) e i

  handle-RunStands :
      (x : Drive × Run E)
      → is_exhausted x.0 ≡ false
      → DriveStands x
      → RunStands (handle agents executor x)
  unfolding handle
  handle-RunStands (threw (limit_exceeded message), s) live h =
      failed-RunStands message (record s { stopped_because = some message }) h
  handle-RunStands (threw (provider_error message), s) live h =
      failed-RunStands _ (record s { stopped_because = some message }) h
  handle-RunStands (threw (scrappy_error message), s) live h =
      failed-RunStands message (record s { stopped_because = some message }) h
  handle-RunStands (threw escaped, s) live h = inr (refl, h)
  handle-RunStands (returned, s) live h = inl (refl, h)
  handle-RunStands (out_of_fuel, s) live h = ground arith

  -- Whatever the agents answer and the tools do, `run` returns with the task completed and a
  -- success, or failed and no success; only an exception that is no `ScrappyError` gets out of it,
  -- and then the task is still open.
  pub run-RunStands :
      (id : String) (objective : Objective) (limits : Limits) (w : World) (env : E)
      → RunStands (run agents executor id objective limits w env)
  unfolding run new_task
  run-RunStands id objective limits w env =
      let start = start_run agents executor id objective limits w env in
      let driven = drive agents executor (suc limits.max_replans) none start in
      handle-RunStands driven (drive-is_exhausted agents executor id objective limits w env)
        (drive-DriveStands (suc limits.max_replans) none start (refl, refl))
