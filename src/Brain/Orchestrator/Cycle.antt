-- ===== src/Brain/Orchestrator/Cycle.antt =====
-- One cycle of the loop, agent by agent, against the limits of the budget.
use scrappy_os.Prelude.{
  ℕ, suc, ◌+◌, ◌≤◌, ◌≡◌, refl, String, not, ◌||◌, Option, none, some, [], arith, Bool-cases, inl,
  inr,
}
use scrappy_os.Core.Enums.{planning, executing, verifying, risk_value}
use scrappy_os.Core.Identity.{is_empty_list}
use scrappy_os.Core.Values.{str, end, field}
use scrappy_os.Core.Events.{plan_created, plan_approved, plan_rejected}
use scrappy_os.Core.Tasks.{Task}
use scrappy_os.Core.Plans.{Plan, plan_risk}
use scrappy_os.Tools.Executor.{ToolExecutor}
use scrappy_os.Brain.Run.{
  Failure, Agents, Run, Next, again, ended, stopped, Verification, AgentDecision, Answer, answered,
  raised, decided, with_env, with_task, emit_for, text_or, rollback_it, complete_it, abort_it,
}
use scrappy_os.Brain.Run.Within.{
  Kept, IsNear-of, IsNear-weaken, Marks, IsWithin, IsWithin-keeps, IsWithin-weaken, NextDone,
  replan-NextDone, replanned_marks,
}
use scrappy_os.Brain.Endings.{StepsEnd, run_steps, move}
use scrappy_os.Brain.Endings.Within.{
  StepsKept, run_steps-IsWithin, fail_run-NextDone, complete_run-NextDone, roll_back-NextDone,
  decided-IsWithin,
}
use scrappy_os.Brain.Orchestrator.{
  judged, verified, verify_moved, unless_raised, observed, execute_moved, accepted, reviewed,
  planned, plan_moved, cycle_checked, remaining_steps,
}

-- More model calls may be allowed.
NextDone-weaken :
    {E : Type 0} (l : Marks) (n m : ℕ) (x : Next × Run E) → n ≤ m → NextDone l n x → NextDone l m x
NextDone-weaken l n m (again feedback, s) more (h, room) =
    (IsWithin-weaken (replanned_marks l) n m s more h, room)
NextDone-weaken l n m (ended, s) more h = IsWithin-weaken l n m s more h
NextDone-weaken l n m (stopped f, s) more h = IsNear-weaken l n m s more h

module _ {E : Type 0} (agents : Agents E) (executor : ToolExecutor) (l : Marks) where
  judged-NextDone :
      (n : ℕ) (v : Verification) (e : StepsEnd) (s : Run E)
      → IsWithin l n 0 s
      → NextDone l (suc n) (judged agents executor v e s)
  unfolding judged
  judged-NextDone n v e s h =
      elim v.decision
        as (λ d. NextDone l (suc n) (judged agents executor (record v { decision = d }) e s)) [
          | complete_it ↦
              complete_run-NextDone agents executor l (suc n) v s
                (IsWithin-weaken l n (suc n) s (omega arith) h)
          | abort_it ↦
              fail_run-NextDone agents executor l (suc n)
                (text_or (some v.conclusion) "aborted by verification") s
                (IsWithin-weaken l n (suc n) s (omega arith) h)
          | rollback_it ↦
              roll_back-NextDone agents executor l n (text_or e.step_failure v.reasoning)
                e.steps_done s h
          | d ↦ replan-NextDone l (suc n) _ s (IsWithin-weaken l n (suc n) s (omega arith) h)
        ]

  verified-NextDone :
      (n : ℕ) (a : Answer (Verification × AgentDecision) × E) (e : StepsEnd) (s : Run E)
      → IsWithin l n 0 s
      → NextDone l (n + 2) (verified agents executor a e s)
  unfolding verified
  verified-NextDone n (raised f, env) e s h =
      IsNear-of l n (n + 2) 0 (with_env env s) (omega arith) (omega arith)
        (IsWithin-keeps l n 0 s (with_env env s) refl refl h)
  verified-NextDone n (answered (v, d), env) e s h =
      let here = IsWithin-keeps l n 0 s (with_env env s) refl refl h in
      NextDone-weaken l (suc (suc n)) (n + 2)
        (judged agents executor v e (decided d (with_env env s))) (omega arith)
        (judged-NextDone (suc n) v e (decided d (with_env env s))
          (decided-IsWithin agents executor l n d (with_env env s) here))

  verify_moved-NextDone :
      (n : ℕ) (t : Option Task) (e : StepsEnd) (s : Run E)
      → IsWithin l n 0 s
      → NextDone l (n + 2) (verify_moved agents executor t e s)
  unfolding verify_moved
  verify_moved-NextDone n none e s h = IsNear-of l n (n + 2) 0 s (omega arith) (omega arith) h
  verify_moved-NextDone n (some t) e s h =
      verified-NextDone n (agents.verify t s.env) e (with_task t s)
        (IsWithin-keeps l n 0 s (with_task t s) refl refl h)

  unless_raised-NextDone :
      (n m : ℕ) (f : Option Failure) (s : Run E) (rest : Next × Run E)
      → n ≤ m
      → Kept l n (f, s)
      → (IsWithin l n 0 s → NextDone l m rest)
      → NextDone l m (unless_raised agents executor f s rest)
  unfolding unless_raised
  unless_raised-NextDone n m (some f) s rest more h k = IsNear-weaken l n m s more h
  unless_raised-NextDone n m none s rest more h k = k h

  observed-NextDone :
      (n : ℕ) (x : StepsEnd × Run E)
      → StepsKept l n x
      → NextDone l (n + 2) (observed agents executor x)
  unfolding observed
  observed-NextDone n (e, s) h =
      unless_raised-NextDone n (n + 2) e.exception s
        (verify_moved agents executor (move agents executor verifying s) e s) (omega arith) h
        (verify_moved-NextDone n (move agents executor verifying s) e s)

  execute_moved-NextDone :
      (n : ℕ) (t : Option Task) (p : Plan) (s : Run E)
      → IsWithin l n 0 s
      → NextDone l (n + 2) (execute_moved agents executor t p s)
  unfolding execute_moved
  execute_moved-NextDone n none p s h = IsNear-of l n (n + 2) 0 s (omega arith) (omega arith) h
  execute_moved-NextDone n (some t) p s h =
      observed-NextDone n (run_steps agents executor p.steps [] none (with_task t s)) (
        run_steps-IsWithin agents executor l n p.steps [] none (with_task t s)
          (IsWithin-keeps l n 0 s (with_task t s) refl refl h))

  accepted-NextDone :
      (n : ℕ) (p : Plan) (s : Run E)
      → IsWithin l n 0 s
      → NextDone l (n + 2) (accepted agents executor p s)
  unfolding accepted
  accepted-NextDone n p s h =
      let rejected =
        emit_for plan_rejected "vishnu"
          (field "plan_id" (str p.id)
            (field "reason" (str (text_or p.review_notes "no acceptable steps")) end))
          s in
      let approved = emit_for plan_approved "vishnu" (field "plan_id" (str p.id) end) s in
      elim (Bool-cases (not p.approved || is_empty_list p.steps)) [
        | inl bad ↦ rw bad (
            replan-NextDone l (n + 2) _ rejected (
              IsWithin-weaken l n (n + 2) rejected (omega arith)
                (IsWithin-keeps l n 0 s rejected refl refl h)))
        | inr good ↦ rw good (
            execute_moved-NextDone n (move agents executor executing approved) p approved
              (IsWithin-keeps l n 0 s approved refl refl h))
      ]

  reviewed-NextDone :
      (n : ℕ) (a : Answer (Plan × AgentDecision) × E) (s : Run E)
      → IsWithin l n 0 s
      → NextDone l (n + 3) (reviewed agents executor a s)
  unfolding reviewed
  reviewed-NextDone n (raised f, env) s h =
      IsNear-of l n (n + 3) 0 (with_env env s) (omega arith) (omega arith)
        (IsWithin-keeps l n 0 s (with_env env s) refl refl h)
  reviewed-NextDone n (answered (p, d), env) s h =
      let s1 = decided d (with_env env s) in
      let t = s1.task in
      let s2 = record s1 {
        env = agents.add_plan p s1.env;
        task = record t { plan_id = some p.id };
      } in
      let h1 =
        decided-IsWithin agents executor l n d (with_env env s)
          (IsWithin-keeps l n 0 s (with_env env s) refl refl h) in
      NextDone-weaken l (suc n + 2) (n + 3) (accepted agents executor p s2) (omega arith)
        (accepted-NextDone (suc n) p s2 (IsWithin-keeps l (suc n) 0 s1 s2 refl refl h1))

  planned-NextDone :
      (n : ℕ) (a : Answer (Plan × AgentDecision) × E) (s : Run E)
      → IsWithin l n 0 s
      → NextDone l (n + 4) (planned agents executor a s)
  unfolding planned
  planned-NextDone n (raised f, env) s h =
      IsNear-of l n (n + 4) 0 (with_env env s) (omega arith) (omega arith)
        (IsWithin-keeps l n 0 s (with_env env s) refl refl h)
  planned-NextDone n (answered (p, d), env) s h =
      let s1 = decided d (with_env env s) in
      let s2 =
        emit_for plan_created "brahma"
          (field "plan_id" (str p.id) (field "max_risk" (str (risk_value (plan_risk p))) end)) s1 in
      let h1 =
        decided-IsWithin agents executor l n d (with_env env s)
          (IsWithin-keeps l n 0 s (with_env env s) refl refl h) in
      NextDone-weaken l (suc n + 3) (n + 4)
        (reviewed agents executor (agents.review s2.task p s2.env) s2) (omega arith)
        (reviewed-NextDone (suc n) (agents.review s2.task p s2.env) s2
          (IsWithin-keeps l (suc n) 0 s1 s2 refl refl h1))

  plan_moved-NextDone :
      (n : ℕ) (t : Option Task) (feedback : Option String) (s : Run E)
      → IsWithin l n 0 s
      → NextDone l (n + 4) (plan_moved agents executor t feedback s)
  unfolding plan_moved
  plan_moved-NextDone n none feedback s h = IsNear-of l n (n + 4) 0 s (omega arith) (omega arith) h
  plan_moved-NextDone n (some t) feedback s h =
      planned-NextDone n (agents.plan (remaining_steps s.budget) feedback t s.env) (with_task t s)
        (IsWithin-keeps l n 0 s (with_task t s) refl refl h)

  pub cycle_checked-NextDone :
      (n m : ℕ) (c feedback : Option String) (s : Run E)
      → (c ≡ none → n + 4 ≤ m)
      → n ≤ m
      → IsWithin l n 0 s
      → NextDone l m (cycle_checked agents executor c feedback s)
  unfolding cycle_checked
  cycle_checked-NextDone n m (some message) feedback s room below h =
      IsNear-of l n m 0 s (omega arith) below h
  cycle_checked-NextDone n m none feedback s room below h =
      NextDone-weaken l (n + 4) m
        (plan_moved agents executor (move agents executor planning s) feedback s) (room refl)
        (plan_moved-NextDone n (move agents executor planning s) feedback s h)
