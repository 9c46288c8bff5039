-- ===== src/Brain/Limits.antt =====
-- src/scrappy_os/brain/limits.py: the budget of one task run.
-- Times are whole ticks of a monotonic clock, which is never before `started_at`; a reading is an
-- argument. A check returns the message of `LimitExceeded`, without its number, or nothing.
use scrappy_os.Prelude.{ℕ, suc, ◌-◌, String, Bool, Option, none, some, leb, if◌then◌else◌}

pub record TaskBudget : Type 0 where
  pub max_plan_steps : ℕ
  pub max_replans : ℕ
  pub max_task_seconds : ℕ
  pub max_consecutive_tool_failures : ℕ
  pub max_model_calls : ℕ
  pub started_at : ℕ
  pub steps_executed : ℕ
  pub replans : ℕ
  pub consecutive_failures : ℕ
  pub model_calls : ℕ

-- The settings that `from_settings` reads.
pub record Limits : Type 0 where
  pub max_plan_steps : ℕ
  pub max_replans : ℕ
  pub max_task_seconds : ℕ
  pub max_consecutive_tool_failures : ℕ
  pub max_model_calls : ℕ

-- `from_settings`
abbrev pub from_settings : Limits → ℕ → TaskBudget
from_settings l now = record {
  max_plan_steps = l.max_plan_steps;
  max_replans = l.max_replans;
  max_task_seconds = l.max_task_seconds;
  max_consecutive_tool_failures = l.max_consecutive_tool_failures;
  max_model_calls = l.max_model_calls;
  started_at = now;
  steps_executed = 0;
  replans = 0;
  consecutive_failures = 0;
  model_calls = 0;
}

abbrev limit : Bool → String → Option String
limit reached message = if reached then some message else none

unfoldable pub check_time : ℕ → TaskBudget → Option String
check_time now b =
    limit (leb b.max_task_seconds (now - b.started_at)) "Task exceeded its time budget"

unfoldable pub check_steps : TaskBudget → Option String
check_steps b = limit (leb b.max_plan_steps b.steps_executed) "Task reached its step limit"

unfoldable pub check_model_calls : TaskBudget → Option String
check_model_calls b = limit (leb b.max_model_calls b.model_calls) "Task reached its inference limit"

unfoldable pub check_failures : TaskBudget → Option String
check_failures b =
    limit (leb b.max_consecutive_tool_failures b.consecutive_failures)
      "consecutive tool failures; stopping"

unfoldable pub check_replans : TaskBudget → Option String
check_replans b = limit (leb b.max_replans b.replans) "Task reached its replan limit"

-- The first limit that is reached.
abbrev pub or_else : Option String → Option String → Option String
or_else none next = next
or_else (some message) next = some message

unfoldable pub check_all : ℕ → TaskBudget → Option String
unfolding check_time check_steps check_model_calls check_failures
check_all now b =
    or_else (check_time now b)
      (or_else (check_steps b) (or_else (check_model_calls b) (check_failures b)))

abbrev pub record_step : Bool → TaskBudget → TaskBudget
record_step success b = record b {
  steps_executed = suc b.steps_executed;
  consecutive_failures = if success then 0 else suc b.consecutive_failures;
}

abbrev pub record_model_call : TaskBudget → TaskBudget
record_model_call b = record b { model_calls = suc b.model_calls }

abbrev pub record_replan : TaskBudget → TaskBudget
record_replan b = record b { replans = suc b.replans }
