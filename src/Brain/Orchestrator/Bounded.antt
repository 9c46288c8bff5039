-- ===== src/Brain/Orchestrator/Bounded.antt =====
-- The limits of src/scrappy_os/brain/limits.py over a whole run of the loop.
use scrappy_os.Prelude.{
  ℕ, zero, suc, ◌+◌, ◌≤◌, ◌≡◌, refl, String, Bool, true, false, Option, none, some, length, arith,
}
use scrappy_os.Core.Tasks.{Objective}
use scrappy_os.Tools.Executor.{World, ToolExecutor}
use scrappy_os.Brain.Limits.{Limits, TaskBudget, check_time, check_model_calls, or_else}
use scrappy_os.Brain.Run.{
  Agents, Run, Next, again, ended, stopped, limit_exceeded, provider_error, scrappy_error, escaped,
}
use scrappy_os.Brain.Run.Within.{Marks, IsWithin, IsNear, IsNear-of, NextDone, replanned_marks}
use scrappy_os.Brain.Endings.{ticks, fail_run}
use scrappy_os.Brain.Orchestrator.Cycle.{cycle_checked-NextDone}
use scrappy_os.Brain.Orchestrator.{
  cycle, cycled, drive, run, handle, after_fail, start_run, Drive, returned, out_of_fuel, threw,
}

cycle_room :
    (now : ℕ) (b : TaskBudget)
    → or_else (check_time now b) (check_model_calls b) ≡ none
    → suc b.model_calls ≤ b.max_model_calls
unfolding check_time check_model_calls
cycle_room now b h = ground arith

-- The reasoning turns that a run is held to: the check stands before a cycle, which may make three,
-- and a rollback makes a fourth.
abbrev pub most_calls : Limits → ℕ
most_calls limits = limits.max_model_calls + 3

abbrev pub StaysWithin : {E : Type 0} → Limits → Run E → Type 0
StaysWithin limits s =
    (s.budget.steps_executed ≤ length s.executed)
    × (length s.executed ≤ suc s.budget.steps_executed)
    × (length s.executed ≤ limits.max_plan_steps)
    × (s.budget.replans ≤ limits.max_replans)
    × (s.budget.model_calls ≤ most_calls limits)

abbrev pub is_exhausted : Drive → Bool
is_exhausted out_of_fuel = true
is_exhausted _ = false

abbrev pub DriveDone : {E : Type 0} → Limits → Drive × Run E → Type 0
DriveDone limits x = (is_exhausted x.0 ≡ false) × StaysWithin limits x.1

StaysWithin-within :
    {E : Type 0} (l : Marks) (s : Run E)
    → l.replans ≤ l.limits.max_replans
    → IsNear l (most_calls l.limits) s
    → StaysWithin l.limits s
StaysWithin-within l s some_left h =
    let c = h.replanned in (h.counted, h.nearly, h.executions, omega arith, h.calls)

module _ {E : Type 0} (agents : Agents E) (executor : ToolExecutor) where
  cycle-NextDone :
      (l : Marks) (feedback : Option String) (s : Run E)
      → IsWithin l (most_calls l.limits) 0 s
      → NextDone l (most_calls l.limits) (cycle agents executor feedback s)
  unfolding cycle
  cycle-NextDone l feedback s h =
      let checks =
        or_else (check_time (ticks agents executor s) s.budget) (check_model_calls s.budget) in
      let limit = h.call_limit in
      cycle_checked-NextDone agents executor l s.budget.model_calls (most_calls l.limits) checks
        feedback s
        (λ passed. let room = cycle_room (ticks agents executor s) s.budget passed in omega arith)
        h.calls
        (record {
          plan_steps = h.plan_steps;
          replan_limit = h.replan_limit;
          call_limit = h.call_limit;
          counted = h.counted;
          steps = h.steps;
          replanned = h.replanned;
          calls = omega arith;
        })

  cycled-DriveDone :
      (l : Marks) (go_on : Option String → Run E → Drive × Run E)
      → ((feedback : Option String) (s : Run E)
          → suc l.replans ≤ l.limits.max_replans
          → IsWithin (replanned_marks l) (most_calls l.limits) 0 s
          → DriveDone l.limits (go_on feedback s))
      → l.replans ≤ l.limits.max_replans
      → (x : Next × Run E) → NextDone l (most_calls l.limits) x
      → DriveDone l.limits (cycled agents executor go_on x)
  unfolding cycled
  cycled-DriveDone l go_on k left (again feedback, s) (h, room) = k (some feedback) s room h
  cycled-DriveDone l go_on k left (ended, s) h =
      let all = most_calls l.limits in
      (refl, StaysWithin-within l s left (IsNear-of l all all 0 s (omega arith) (omega arith) h))
  cycled-DriveDone l go_on k left (stopped f, s) h = (refl, StaysWithin-within l s left h)

  drive-DriveDone :
      (fuel : ℕ) (l : Marks) (feedback : Option String) (s : Run E)
      → suc l.limits.max_replans ≤ l.replans + fuel
      → l.replans ≤ l.limits.max_replans
      → IsWithin l (most_calls l.limits) 0 s
      → DriveDone l.limits (drive agents executor fuel feedback s)
  unfolding drive
  drive-DriveDone zero l feedback s enough left h = ground arith
  drive-DriveDone (suc fuel) l feedback s enough left h =
      cycled-DriveDone l (drive agents executor fuel)
        (λ feedback' s' room h'.
          drive-DriveDone fuel (replanned_marks l) feedback' s' (omega arith) room h')
        left (cycle agents executor feedback s) (cycle-NextDone l feedback s h)

  handle-DriveDone :
      (limits : Limits) (x : Drive × Run E)
      → DriveDone limits x
      → DriveDone limits (handle agents executor x)
  unfolding handle fail_run after_fail
  handle-DriveDone limits (threw (limit_exceeded message), s) h = ground arith
  handle-DriveDone limits (threw (provider_error message), s) h = ground arith
  handle-DriveDone limits (threw (scrappy_error message), s) h = ground arith
  handle-DriveDone limits (threw escaped, s) h = h
  handle-DriveDone limits (returned, s) h = h
  handle-DriveDone limits (out_of_fuel, s) h = h

  start-DriveDone :
      (id : String) (objective : Objective) (limits : Limits) (w : World) (env : E)
      → DriveDone limits (
          drive agents executor
            (suc limits.max_replans)
            none
            (start_run agents executor id objective limits w env))
  start-DriveDone id objective limits w env =
      let start = start_run agents executor id objective limits w env in
      drive-DriveDone (suc limits.max_replans) (record { limits = limits; replans = 0 }) none start
        (omega arith) (omega arith)
        (record {
          plan_steps = refl;
          replan_limit = refl;
          call_limit = refl;
          counted = refl;
          steps = omega arith;
          replanned = refl;
          calls = omega arith;
        })

  pub drive-is_exhausted :
      (id : String) (objective : Objective) (limits : Limits) (w : World) (env : E)
      → is_exhausted
          (drive agents executor
            (suc limits.max_replans)
            none
            (start_run agents executor id objective limits w env)).0
        ≡ false
  drive-is_exhausted id objective limits w env = (start-DriveDone id objective limits w env).0

  run-DriveDone :
      (id : String) (objective : Objective) (limits : Limits) (w : World) (env : E)
      → DriveDone limits (run agents executor id objective limits w env)
  unfolding run
  run-DriveDone id objective limits w env =
      let start = start_run agents executor id objective limits w env in
      handle-DriveDone limits (drive agents executor (suc limits.max_replans) none start)
        (start-DriveDone id objective limits w env)

  -- Every run comes to an end: one cycle more than the replans allowed is fuel enough, whatever the
  -- agents answer, the tools do and the clocks show.
  pub run-is_exhausted :
      (id : String) (objective : Objective) (limits : Limits) (w : World) (env : E)
      → is_exhausted (run agents executor id objective limits w env).0 ≡ false
  run-is_exhausted id objective limits w env = (run-DriveDone id objective limits w env).0

  -- However a run ends, it has executed no more tool calls than the plan steps allowed, recovery
  -- steps included; its budget counts all of them but at most one, which is left out when an
  -- exception came between the call and its count; it has replanned no more often than allowed;
  -- and its budget counts at most three more reasoning turns than the limit of model calls. (A
  -- turn may ask the provider twice; the second request is not counted by the program.)
  pub run-StaysWithin :
      (id : String) (objective : Objective) (limits : Limits) (w : World) (env : E)
      → StaysWithin limits (run agents executor id objective limits w env).1
  run-StaysWithin id objective limits w env = (run-DriveDone id objective limits w env).1
