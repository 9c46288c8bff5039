-- ===== src/Brain/Endings/Active.antt =====
-- Which state a task is in while its run goes on, and in which it is left.
use scrappy_os.Brain.Run.Within.{execute_step-task}
use scrappy_os.Prelude.{
  ℕ, ◌≡◌, ◌⊎◌, inl, inr, refl, String, Bool, true, false, not, ◌&&◌, Option, none, some, List, [],
  ◌∷◌, ◌++◌, arith, Bool-cases,
}
use scrappy_os.Core.Plans.{PlanStep}
use scrappy_os.Core.Tasks.{Task, transition_to}
use scrappy_os.Core.Enums.{
  TaskState, created, planning, executing, verifying, rolling_back, completed, failed,
}
use scrappy_os.Core.Values.{str, end, field}
use scrappy_os.Core.Events.{rollback_started}
use scrappy_os.Security.Policy.{is_denied}
use scrappy_os.Tools.Executor.{ToolExecutor, ExecutionOutcome}
use scrappy_os.Brain.Limits.{check_all, check_time, check_steps, or_else}
use scrappy_os.Brain.Run.{
  Failure, Agents, Run, Next, again, ended, stopped, execute_step, Verification, Recovery,
  AgentDecision, Answer, answered, raised, decided, with_env, with_task, emit_for,
}
use scrappy_os.Brain.Endings.{
  StepsEnd, Rest, count_step, step_result, step_checked, run_steps, ticks, fail_run, complete_run,
  recovery_result, recovery_checked, recover_steps, roll_back, recovered, recovery_planned,
  rollback_moved, move,
}

-- The states of a task in the hands of the loop.
abbrev pub is_active : TaskState → Bool
is_active created = true
is_active planning = true
is_active executing = true
is_active verifying = true
is_active rolling_back = true
is_active _ = false

abbrev pub IsActive : {E : Type 0} → Run E → Type 0
IsActive s = (is_active s.task.state ≡ true) × (s.succeeded ≡ false)

-- The end of a run: completed with success, or failed without.
abbrev pub IsEnded : {E : Type 0} → Run E → Type 0
IsEnded s =
    ((s.task.state ≡ completed) × (s.succeeded ≡ true))
    ⊎ ((s.task.state ≡ failed) × (s.succeeded ≡ false))

-- Where the task stands after a cycle.
abbrev pub NextStands : {E : Type 0} → Next × Run E → Type 0
NextStands (again feedback, s) = IsActive s
NextStands (ended, s) = IsEnded s
NextStands (stopped f, s) = IsActive s

-- The task and the success of `s` are those of `t`.
abbrev pub SameTask : {E : Type 0} → Run E → Run E → Type 0
SameTask s t = (t.task ≡ s.task) × (t.succeeded ≡ s.succeeded)

pub IsActive-SameTask : {E : Type 0} (s t : Run E) → SameTask s t → IsActive s → IsActive t
IsActive-SameTask s t (same, flag) (a, f) = (rw same a, rw flag f)

transition_to-state :
    (now : ℕ) (target : TaskState) (t u : Task)
    → is_active target ≡ true
    → is_active t.state ≡ true
    → transition_to now target t ≡ some u
    → is_active u.state ≡ true
unfolding transition_to
transition_to-state now target t u a b h = ground arith

module _ {E : Type 0} (agents : Agents E) (executor : ToolExecutor) where
  pub IsActive-move :
      (target : TaskState) (s : Run E) (t : Task)
      → is_active target ≡ true
      → move agents executor target s ≡ some t
      → IsActive s
      → IsActive (with_task t s)
  IsActive-move target s t a h (b, f) =
      (transition_to-state (agents.utc_now s.env) target s.task t a b h, f)

  step_result-IsActive :
      (go_on : Rest E)
      → ((done : List PlanStep) (failure : Option String) (s : Run E)
          → IsActive s
          → IsActive (go_on done failure s).1)
      → (done : List PlanStep) (failure : Option String) (r : Answer ExecutionOutcome × Run E)
      → IsActive r.1
      → IsActive (step_result go_on done failure r).1
  unfolding step_result
  step_result-IsActive go_on k done failure (raised f, s) h = h
  step_result-IsActive go_on k done failure (answered o, s) h =
      elim (Bool-cases (not o.result.success && is_denied o.verdict)) [
        | inl stops ↦ rw stops h
        | inr goes ↦ rw goes (k done _ (count_step o.result.success s) h)
      ]

  step_checked-IsActive :
      (c : Option String) (done : List PlanStep) (failure : Option String) (s : Run E)
      (rest : StepsEnd × Run E)
      → IsActive rest.1
      → IsActive s
      → IsActive (step_checked c done failure s rest).1
  unfolding step_checked
  step_checked-IsActive (some message) done failure s rest k h = h
  step_checked-IsActive none done failure s rest k h = k

  execute_step-IsActive :
      (step : PlanStep) (s : Run E) → IsActive s → IsActive (execute_step agents executor step s).1
  execute_step-IsActive step s h =
      IsActive-SameTask s (execute_step agents executor step s).1
        (execute_step-task agents executor step s) h

  pub run_steps-IsActive :
      (steps : List PlanStep) (done : List PlanStep) (failure : Option String) (s : Run E)
      → IsActive s
      → IsActive (run_steps agents executor steps done failure s).1
  unfolding run_steps
  run_steps-IsActive [] done failure s h = h
  run_steps-IsActive (step ∷ steps) done failure s h =
      let done' = done ++ step ∷ [] in
      let r = execute_step agents executor step s in
      step_checked-IsActive (check_all (ticks agents executor s) s.budget) done failure s
        (step_result (run_steps agents executor steps) done' failure r)
        (step_result-IsActive (run_steps agents executor steps) (run_steps-IsActive steps) done'
          failure r (execute_step-IsActive step s h))
        h

  recovery_result-IsActive :
      (go_on : Run E → Option Failure × Run E)
      → ((s : Run E) → IsActive s → IsActive (go_on s).1)
      → (r : Answer ExecutionOutcome × Run E) → IsActive r.1
      → IsActive (recovery_result agents executor go_on r).1
  unfolding recovery_result
  recovery_result-IsActive go_on k (raised f, s) h = h
  recovery_result-IsActive go_on k (answered o, s) h = k (count_step o.result.success s) h

  recovery_checked-IsActive :
      (c : Option String) (s : Run E) (rest : Option Failure × Run E)
      → IsActive rest.1
      → IsActive s
      → IsActive (recovery_checked agents executor c s rest).1
  unfolding recovery_checked
  recovery_checked-IsActive (some message) s rest k h = h
  recovery_checked-IsActive none s rest k h = k

  recover_steps-IsActive :
      (steps : List PlanStep) (s : Run E)
      → IsActive s
      → IsActive (recover_steps agents executor steps s).1
  unfolding recover_steps
  recover_steps-IsActive [] s h = h
  recover_steps-IsActive (step ∷ steps) s h =
      let go_on = recover_steps agents executor steps in
      let r = execute_step agents executor step s in
      recovery_checked-IsActive
        (or_else (check_time (ticks agents executor s) s.budget) (check_steps s.budget)) s
        (recovery_result agents executor go_on r)
        (recovery_result-IsActive go_on (recover_steps-IsActive steps) r
          (execute_step-IsActive step s h))
        h

  pub fail_run-ends :
      (reason : String) (s : Run E)
      → IsActive s
      → ((fail_run agents executor reason s).0 ≡ ended)
        × IsEnded (fail_run agents executor reason s).1
  unfolding fail_run transition_to
  fail_run-ends reason s (a, f) = ground arith

  pub fail_run-NextStands :
      (reason : String) (s : Run E) → IsActive s → NextStands (fail_run agents executor reason s)
  unfolding fail_run transition_to
  fail_run-NextStands reason s (a, f) = ground arith

  pub complete_run-NextStands :
      (v : Verification) (s : Run E) → IsActive s → NextStands (complete_run agents executor v s)
  unfolding complete_run transition_to
  complete_run-NextStands v s (a, f) = ground arith

  recovered-NextStands :
      (reason : String) (r : Recovery) (fs : Option Failure × Run E)
      → IsActive fs.1
      → NextStands (recovered agents executor reason r fs)
  unfolding recovered transition_to
  recovered-NextStands reason r (some f, s) h = h
  recovered-NextStands reason r (none, s) (a, f) = ground arith

  recovery_planned-NextStands :
      (reason : String) (a : Answer (Recovery × AgentDecision) × E) (s : Run E)
      → IsActive s
      → NextStands (recovery_planned agents executor reason a s)
  unfolding recovery_planned
  recovery_planned-NextStands reason (raised e, env) s h = h
  recovery_planned-NextStands reason (answered (r, d), env) s h =
      let s' = decided d (with_env env s) in
      recovered-NextStands reason r (recover_steps agents executor r.plan.steps s')
        (recover_steps-IsActive r.plan.steps s' h)

  rollback_moved-NextStands :
      (t : Option Task) (reason : String) (done : List PlanStep) (s : Run E)
      → IsActive s
      → ((u : Task) → t ≡ some u → IsActive (with_task u s))
      → NextStands (rollback_moved agents executor t reason done s)
  unfolding rollback_moved
  rollback_moved-NextStands none reason done s h k = h
  rollback_moved-NextStands (some t) reason done s h k =
      let s' =
        emit_for rollback_started "mahesh" (field "reason" (str reason) end) (with_task t s) in
      recovery_planned-NextStands reason (agents.recover reason done s'.task s'.env) s' (k t refl)

  pub roll_back-NextStands :
      (reason : String) (done : List PlanStep) (s : Run E)
      → IsActive s
      → NextStands (roll_back agents executor reason done s)
  unfolding roll_back
  roll_back-NextStands reason done s h =
      rollback_moved-NextStands (move agents executor rolling_back s) reason done s h
        (λ u e. IsActive-move rolling_back s u refl e h)
