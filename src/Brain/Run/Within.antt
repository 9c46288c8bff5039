-- ===== src/Brain/Run/Within.antt =====
-- A run within the limits of its budget, and what one step and one replan do to it.
use scrappy_os.Prelude.{
  ℕ, suc, ◌+◌, ◌≤◌, ◌≡◌, refl, String, Option, none, some, [], ◌∷◌, length, length-append, arith,
  false, true, ◌++◌,
}
use scrappy_os.Core.Plans.{PlanStep}
use scrappy_os.Tools.Executor.{
  World, ToolExecutor, ExecutionOutcome, Execution, outcome, invalid_result, store_error,
  broken_classification, execute,
}
use scrappy_os.Brain.Limits.{Limits, check_replans, TaskBudget}
use scrappy_os.Brain.Run.{
  Agents, Run, execute_step, noted, remembered, Failure, Answer, answered, raised, with_env, replan,
  step_call, step_occasion, Next, replan_with, Bool, again, stopped, ended,
}

-- The limits of a run, and the replans it has made so far.
pub record Marks : Type 0 where
  pub limits : Limits
  pub replans : ℕ

-- The budget of the run was made from these limits; it has executed as many tools as it counts, `e` of them
-- to be counted yet, within the step limit, and has asked the models at most `n` times.
pub record IsWithin {E : Type 0} (l : Marks) (n e : ℕ) (s : Run E) : Type 0 where
  pub plan_steps : s.budget.max_plan_steps ≡ l.limits.max_plan_steps
  pub replan_limit : s.budget.max_replans ≡ l.limits.max_replans
  pub call_limit : s.budget.max_model_calls ≡ l.limits.max_model_calls
  pub counted : length s.executed ≡ s.budget.steps_executed + e
  pub steps : s.budget.steps_executed + e ≤ l.limits.max_plan_steps
  pub replanned : s.budget.replans ≡ l.replans
  pub calls : s.budget.model_calls ≤ n

-- The run is within the limits, save that one tool that it has executed may be uncounted, because
-- an exception was raised before the count.
pub record IsNear {E : Type 0} (l : Marks) (n : ℕ) (s : Run E) : Type 0 where
  pub counted : s.budget.steps_executed ≤ length s.executed
  pub nearly : length s.executed ≤ suc s.budget.steps_executed
  pub executions : length s.executed ≤ l.limits.max_plan_steps
  pub replanned : s.budget.replans ≡ l.replans
  pub calls : s.budget.model_calls ≤ n

pub IsNear-of :
    {E : Type 0} (l : Marks) (n m e : ℕ) (s : Run E)
    → e ≤ 1
    → n ≤ m
    → IsWithin l n e s
    → IsNear l m s
IsNear-of l n m e s one more h = record {
  counted = let c = h.counted in omega arith;
  nearly = let c = h.counted in omega arith;
  executions = let c = h.counted in let k = h.steps in omega arith;
  replanned = h.replanned;
  calls = let c = h.calls in omega arith;
}

pub IsNear-weaken :
    {E : Type 0} (l : Marks) (n m : ℕ) (s : Run E) → n ≤ m → IsNear l n s → IsNear l m s
IsNear-weaken l n m s more h = record {
  counted = h.counted;
  nearly = h.nearly;
  executions = h.executions;
  replanned = h.replanned;
  calls = let c = h.calls in omega arith;
}

-- What a part of a run comes to that may end in an exception.
abbrev pub Kept : {E : Type 0} → Marks → ℕ → Option Failure × Run E → Type 0
Kept l n (none, s) = IsWithin l n 0 s
Kept l n (some f, s) = IsNear l n s

-- What keeps the budget and the executed tools keeps a run within its limits.
pub IsWithin-keeps :
    {E : Type 0} (l : Marks) (n e : ℕ) (s t : Run E)
    → t.budget ≡ s.budget
    → t.executed ≡ s.executed
    → IsWithin l n e s
    → IsWithin l n e t
IsWithin-keeps l n e s t b x h = record {
  plan_steps = rw b h.plan_steps;
  replan_limit = rw b h.replan_limit;
  call_limit = rw b h.call_limit;
  counted = rw b (rw x h.counted);
  steps = rw b h.steps;
  replanned = rw b h.replanned;
  calls = rw b h.calls;
}

-- More model calls may be allowed.
pub IsWithin-weaken :
    {E : Type 0} (l : Marks) (n m : ℕ) (s : Run E) → n ≤ m → IsWithin l n 0 s → IsWithin l m 0 s
IsWithin-weaken l n m s more h = record {
  plan_steps = h.plan_steps;
  replan_limit = h.replan_limit;
  call_limit = h.call_limit;
  counted = h.counted;
  steps = h.steps;
  replanned = h.replanned;
  calls = let c = h.calls in omega arith;
}

abbrev pub replanned_marks : Marks → Marks
replanned_marks l = record l { replans = suc l.replans }

-- What a cycle comes to: where it asks for another one, it has paid for it with one replan.
abbrev pub NextDone : {E : Type 0} → Marks → ℕ → Next × Run E → Type 0
NextDone l n (again feedback, s) =
    IsWithin (replanned_marks l) n 0 s × (suc l.replans ≤ l.limits.max_replans)
NextDone l n (ended, s) = IsWithin l n 0 s
NextDone l n (stopped f, s) = IsNear l n s

abbrev pub is_again : Next → Bool
is_again (again feedback) = true
is_again _ = false

-- An end of the run that is within the limits.
pub NextDone-ends :
    {E : Type 0} (l : Marks) (n : ℕ) (x : Next × Run E)
    → is_again x.0 ≡ false
    → IsWithin l n 0 x.1
    → NextDone l n x
NextDone-ends l n (again feedback, s) p h = ground arith
NextDone-ends l n (ended, s) p h = h
NextDone-ends l n (stopped f, s) p h = IsNear-of l n n 0 s (omega arith) (omega arith) h

replan_with-NextDone :
    {E : Type 0} (l : Marks) (n : ℕ) (c : Option String) (feedback : String) (s : Run E)
    → (c ≡ none → suc l.replans ≤ l.limits.max_replans)
    → IsWithin l n 0 s
    → NextDone l n (replan_with c feedback s)
unfolding replan_with
replan_with-NextDone l n (some message) feedback s room h =
    IsNear-of l n n 0 s (omega arith) (omega arith) h
replan_with-NextDone l n none feedback s room h = (
  record {
    plan_steps = h.plan_steps;
    replan_limit = h.replan_limit;
    call_limit = h.call_limit;
    counted = h.counted;
    steps = h.steps;
    replanned = let c = h.replanned in omega arith;
    calls = h.calls;
  },
  room refl,
)

check_replans-room : (b : TaskBudget) → check_replans b ≡ none → suc b.replans ≤ b.max_replans
unfolding check_replans
check_replans-room b h = ground arith

pub replan-NextDone :
    {E : Type 0} (l : Marks) (n : ℕ) (feedback : String) (s : Run E)
    → IsWithin l n 0 s
    → NextDone l n (replan feedback s)
unfolding replan
replan-NextDone l n feedback s h =
    replan_with-NextDone l n (check_replans s.budget) feedback s
      (λ passed.
        let room = check_replans-room s.budget passed in
        let a = h.replanned in let b = h.replan_limit in omega arith)
      h

module _ {E : Type 0} (agents : Agents E) (executor : ToolExecutor) where
  -- What a step comes to: one tool was executed and is to be counted, or an exception was raised.
  abbrev pub StepDone : Marks → ℕ → Answer ExecutionOutcome × Run E → Type 0
  StepDone l n (raised f, s) = IsNear l n s
  StepDone l n (answered o, s) = IsWithin l n 1 s

  remembered-StepDone :
      (l : Marks) (n : ℕ) (o : ExecutionOutcome) (r : Option Failure × E) (s : Run E)
      → IsWithin l n 1 s
      → StepDone l n (remembered agents executor o r s)
  unfolding remembered
  remembered-StepDone l n o (none, env) s h = IsWithin-keeps l n 1 s (with_env env s) refl refl h
  remembered-StepDone l n o (some f, env) s h =
      IsNear-of l n n 1 (with_env env s) (omega arith) (omega arith)
        (IsWithin-keeps l n 1 s (with_env env s) refl refl h)

  noted-StepDone :
      (l : Marks) (n : ℕ) (step : PlanStep) (xw : Execution × World) (s : Run E)
      → suc s.budget.steps_executed ≤ l.limits.max_plan_steps
      → IsWithin l n 0 s
      → StepDone l n (noted agents executor step xw s)
  unfolding noted
  noted-StepDone l n step (outcome o, w) s room h =
      remembered-StepDone l n o (agents.note_result o.result step.tool_name s.env)
        (record s { world = w; executed = s.executed ++ o ∷ [] })
        (record {
          plan_steps = h.plan_steps;
          replan_limit = h.replan_limit;
          call_limit = h.call_limit;
          counted = let c = h.counted in omega (arith, length-append s.executed (o ∷ []));
          steps = omega arith;
          replanned = h.replanned;
          calls = h.calls;
        })
  noted-StepDone l n step (invalid_result, w) s room h =
      IsNear-of l n n 0 (record s { world = w }) (omega arith) (omega arith)
        (IsWithin-keeps l n 0 s (record s { world = w }) refl refl h)
  noted-StepDone l n step (broken_classification, w) s room h =
      IsNear-of l n n 0 (record s { world = w }) (omega arith) (omega arith)
        (IsWithin-keeps l n 0 s (record s { world = w }) refl refl h)
  noted-StepDone l n step (store_error, w) s room h =
      IsNear-of l n n 0 (record s { world = w }) (omega arith) (omega arith)
        (IsWithin-keeps l n 0 s (record s { world = w }) refl refl h)

  pub execute_step-StepDone :
      (l : Marks) (n : ℕ) (step : PlanStep) (s : Run E)
      → suc s.budget.steps_executed ≤ l.limits.max_plan_steps
      → IsWithin l n 0 s
      → StepDone l n (execute_step agents executor step s)
  unfolding execute_step
  execute_step-StepDone l n step s room h =
      noted-StepDone l n step
        (execute executor (step_occasion agents executor s) (step_call agents executor step s)
          s.world)
        s room h

  remembered-task :
      (o : ExecutionOutcome) (r : Option Failure × E) (s : Run E)
      → ((remembered agents executor o r s).1.task ≡ s.task)
        × ((remembered agents executor o r s).1.succeeded ≡ s.succeeded)
  unfolding remembered
  remembered-task o (none, env) s = (refl, refl)
  remembered-task o (some f, env) s = (refl, refl)

  noted-task :
      (step : PlanStep) (xw : Execution × World) (s : Run E)
      → ((noted agents executor step xw s).1.task ≡ s.task)
        × ((noted agents executor step xw s).1.succeeded ≡ s.succeeded)
  unfolding noted
  noted-task step (outcome o, w) s =
      remembered-task o (agents.note_result o.result step.tool_name s.env)
        (record s { world = w; executed = s.executed ++ o ∷ [] })
  noted-task step (invalid_result, w) s = (refl, refl)
  noted-task step (broken_classification, w) s = (refl, refl)
  noted-task step (store_error, w) s = (refl, refl)

  -- A step leaves the task alone.
  pub execute_step-task :
      (step : PlanStep) (s : Run E)
      → ((execute_step agents executor step s).1.task ≡ s.task)
        × ((execute_step agents executor step s).1.succeeded ≡ s.succeeded)
  unfolding execute_step
  execute_step-task step s =
      noted-task step
        (execute executor (step_occasion agents executor s) (step_call agents executor step s)
          s.world)
        s
