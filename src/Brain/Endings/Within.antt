-- ===== src/Brain/Endings/Within.antt =====
-- The steps of a plan, the recovery steps and the ends of a run, against the limits of the budget.
use scrappy_os.Prelude.{
  ℕ, suc, ◌≤◌, ◌≡◌, refl, String, Bool, not, ◌&&◌, Option, none, some, List, [], ◌∷◌, ◌++◌, arith,
  Bool-cases, inl, inr,
}
use scrappy_os.Core.Plans.{PlanStep}
use scrappy_os.Core.Tasks.{Task}
use scrappy_os.Security.Policy.{is_denied}
use scrappy_os.Tools.Executor.{ToolExecutor, ExecutionOutcome}
use scrappy_os.Brain.Limits.{TaskBudget, check_all, check_time, check_steps, or_else}
use scrappy_os.Brain.Run.{
  Failure, Agents, Run, execute_step, Verification, Recovery, AgentDecision, Answer, answered,
  raised, decided, with_env, with_task,
}
use scrappy_os.Brain.Run.Within.{
  Kept, IsNear-of, IsWithin, IsWithin-keeps, StepDone, execute_step-StepDone, Marks, NextDone,
  NextDone-ends,
}
use scrappy_os.Brain.Endings.{
  StepsEnd, Rest, count_step, step_result, step_checked, run_steps, ticks, fail_run, complete_run,
  recovery_result, recovery_checked, recover_steps, roll_back, recovered, recovery_planned,
  rollback_moved, move, emit_for, rolling_back, rollback_started, field, str, end,
}

-- What the steps of a plan come to.
abbrev pub StepsKept : {E : Type 0} → Marks → ℕ → StepsEnd × Run E → Type 0
StepsKept l n (e, s) = Kept l n (e.exception, s)

module _ {E : Type 0} (l : Marks) (n : ℕ) where
  count_step-IsWithin :
      (success : Bool) (s : Run E) → IsWithin l n 1 s → IsWithin l n 0 (count_step success s)
  count_step-IsWithin success s h = record {
    plan_steps = h.plan_steps;
    replan_limit = h.replan_limit;
    call_limit = h.call_limit;
    counted = let c = h.counted in omega arith;
    steps = let c = h.steps in omega arith;
    replanned = h.replanned;
    calls = h.calls;
  }

  step_checked-IsWithin :
      (c : Option String) (done : List PlanStep) (failure : Option String) (s : Run E)
      (rest : StepsEnd × Run E)
      → (c ≡ none → StepsKept l n rest)
      → IsWithin l n 0 s
      → StepsKept l n (step_checked c done failure s rest)
  unfolding step_checked
  step_checked-IsWithin (some message) done failure s rest k h =
      IsWithin-keeps l n 0 s (record s { stopped_because = some message }) refl refl h
  step_checked-IsWithin none done failure s rest k h = k refl

-- Where the checks of a step pass, there is room for it.
check_all-room :
    (now : ℕ) (b : TaskBudget) → check_all now b ≡ none → suc b.steps_executed ≤ b.max_plan_steps
unfolding check_all
check_all-room now b h = ground arith

recovery_room :
    (now : ℕ) (b : TaskBudget)
    → or_else (check_time now b) (check_steps b) ≡ none
    → suc b.steps_executed ≤ b.max_plan_steps
unfolding check_time check_steps
recovery_room now b h = ground arith

module _ {E : Type 0} (agents : Agents E) (executor : ToolExecutor) (l : Marks) (n : ℕ) where
  step_result-IsWithin :
      (go_on : Rest E)
      → ((done : List PlanStep) (failure : Option String) (s : Run E)
          → IsWithin l n 0 s
          → StepsKept l n (go_on done failure s))
      → (done : List PlanStep) (failure : Option String) (r : Answer ExecutionOutcome × Run E)
      → StepDone agents executor l n r
      → StepsKept l n (step_result go_on done failure r)
  unfolding step_result
  step_result-IsWithin go_on k done failure (raised f, s) h = h
  step_result-IsWithin go_on k done failure (answered o, s) h =
      let h' = count_step-IsWithin l n o.result.success s h in
      elim (Bool-cases (not o.result.success && is_denied o.verdict)) [
        | inl stops ↦ rw stops h'
        | inr goes ↦ rw goes (k done _ (count_step o.result.success s) h')
      ]

  pub run_steps-IsWithin :
      (steps : List PlanStep) (done : List PlanStep) (failure : Option String) (s : Run E)
      → IsWithin l n 0 s
      → StepsKept l n (run_steps agents executor steps done failure s)
  unfolding run_steps
  run_steps-IsWithin [] done failure s h = h
  run_steps-IsWithin (step ∷ steps) done failure s h =
      step_checked-IsWithin l n (check_all (ticks agents executor s) s.budget) done failure s
        (step_result (run_steps agents executor steps) (done ++ step ∷ []) failure
          (execute_step agents executor step s))
        (λ passed.
          let room = check_all-room (ticks agents executor s) s.budget passed in
          let e = h.plan_steps in
          step_result-IsWithin (run_steps agents executor steps) (run_steps-IsWithin steps)
            (done ++ step ∷ []) failure (execute_step agents executor step s)
            (execute_step-StepDone agents executor l n step s (omega arith) h))
        h

  recovery_checked-IsWithin :
      (c : Option String) (s : Run E) (rest : Option Failure × Run E)
      → (c ≡ none → Kept l n rest)
      → IsWithin l n 0 s
      → Kept l n (recovery_checked agents executor c s rest)
  unfolding recovery_checked
  recovery_checked-IsWithin (some message) s rest k h = h
  recovery_checked-IsWithin none s rest k h = k refl

  recovery_result-IsWithin :
      (go_on : Run E → Option Failure × Run E)
      → ((s : Run E) → IsWithin l n 0 s → Kept l n (go_on s))
      → (r : Answer ExecutionOutcome × Run E) → StepDone agents executor l n r
      → Kept l n (recovery_result agents executor go_on r)
  unfolding recovery_result
  recovery_result-IsWithin go_on k (raised f, s) h = h
  recovery_result-IsWithin go_on k (answered o, s) h =
      k (count_step o.result.success s) (count_step-IsWithin l n o.result.success s h)

  recover_steps-IsWithin :
      (steps : List PlanStep) (s : Run E)
      → IsWithin l n 0 s
      → Kept l n (recover_steps agents executor steps s)
  unfolding recover_steps
  recover_steps-IsWithin [] s h = h
  recover_steps-IsWithin (step ∷ steps) s h =
      recovery_checked-IsWithin
        (or_else (check_time (ticks agents executor s) s.budget) (check_steps s.budget)) s
        (recovery_result agents executor (recover_steps agents executor steps)
          (execute_step agents executor step s))
        (λ passed.
          let room = recovery_room (ticks agents executor s) s.budget passed in
          let e = h.plan_steps in
          recovery_result-IsWithin (recover_steps agents executor steps)
            (recover_steps-IsWithin steps) (execute_step agents executor step s)
            (execute_step-StepDone agents executor l n step s (omega arith) h))
        h

  pub fail_run-NextDone :
      (reason : String) (s : Run E)
      → IsWithin l n 0 s
      → NextDone l n (fail_run agents executor reason s)
  unfolding fail_run
  fail_run-NextDone reason s h =
      NextDone-ends l n (fail_run agents executor reason s) (ground arith) (
        IsWithin-keeps l n 0 s (fail_run agents executor reason s).1 (ground arith) (ground arith)
          h)

  pub complete_run-NextDone :
      (v : Verification) (s : Run E)
      → IsWithin l n 0 s
      → NextDone l n (complete_run agents executor v s)
  unfolding complete_run
  complete_run-NextDone v s h =
      NextDone-ends l n (complete_run agents executor v s) (ground arith) (
        IsWithin-keeps l n 0 s (complete_run agents executor v s).1 (ground arith) (ground arith) h)

  pub decided-IsWithin :
      (d : AgentDecision) (s : Run E) → IsWithin l n 0 s → IsWithin l (suc n) 0 (decided d s)
  decided-IsWithin d s h = record {
    plan_steps = h.plan_steps;
    replan_limit = h.replan_limit;
    call_limit = h.call_limit;
    counted = h.counted;
    steps = h.steps;
    replanned = h.replanned;
    calls = let c = h.calls in omega arith;
  }

  recovered-NextDone :
      (reason : String) (r : Recovery) (fs : Option Failure × Run E)
      → Kept l n fs
      → NextDone l n (recovered agents executor reason r fs)
  unfolding recovered
  recovered-NextDone reason r (some f, s) h = h
  recovered-NextDone reason r (none, s) h =
      NextDone-ends l n (recovered agents executor reason r (none, s)) (ground arith) (
        IsWithin-keeps l n 0 s (recovered agents executor reason r (none, s)).1 (ground arith)
          (ground arith) h)

module _ {E : Type 0} (agents : Agents E) (executor : ToolExecutor) (l : Marks) (n : ℕ) where
  recovery_planned-NextDone :
      (reason : String) (a : Answer (Recovery × AgentDecision) × E) (s : Run E)
      → IsWithin l n 0 s
      → NextDone l (suc n) (recovery_planned agents executor reason a s)
  unfolding recovery_planned
  recovery_planned-NextDone reason (raised e, env) s h =
      IsNear-of l n (suc n) 0 (with_env env s) (omega arith) (omega arith)
        (IsWithin-keeps l n 0 s (with_env env s) refl refl h)
  recovery_planned-NextDone reason (answered (r, d), env) s h =
      let here = IsWithin-keeps l n 0 s (with_env env s) refl refl h in
      recovered-NextDone agents executor l (suc n) reason r
        (recover_steps agents executor r.plan.steps (decided d (with_env env s)))
        (recover_steps-IsWithin agents executor l (suc n) r.plan.steps (decided d (with_env env s))
          (decided-IsWithin agents executor l n d (with_env env s) here))

  rollback_moved-NextDone :
      (t : Option Task) (reason : String) (done : List PlanStep) (s : Run E)
      → IsWithin l n 0 s
      → NextDone l (suc n) (rollback_moved agents executor t reason done s)
  unfolding rollback_moved
  rollback_moved-NextDone none reason done s h =
      IsNear-of l n (suc n) 0 s (omega arith) (omega arith) h
  rollback_moved-NextDone (some t) reason done s h =
      let s' =
        emit_for rollback_started "mahesh" (field "reason" (str reason) end) (with_task t s) in
      recovery_planned-NextDone reason (agents.recover reason done s'.task s'.env) s'
        (IsWithin-keeps l n 0 s s' refl refl h)

  pub roll_back-NextDone :
      (reason : String) (done : List PlanStep) (s : Run E)
      → IsWithin l n 0 s
      → NextDone l (suc n) (roll_back agents executor reason done s)
  unfolding roll_back
  roll_back-NextDone reason done s h =
      rollback_moved-NextDone (move agents executor rolling_back s) reason done s h
