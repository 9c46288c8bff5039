-- ===== src/Brain/Orchestrator/Tests.antt =====
-- Runs of the loop, and the theorems at concrete inputs.
use scrappy_os.Prelude.{String, ◌≡◌, refl, true, false, none, some, List, [], ◌∷◌, ℕ, length}
use scrappy_os.Core.Enums.{read, TaskState, completed, failed}
use scrappy_os.Core.Tasks.{Objective}
use scrappy_os.Core.Plans.{Plan, PlanStep, brahma}
use scrappy_os.Core.Values.{end}
use scrappy_os.Tools.Registry.{Tool, valid, classified, finished}
use scrappy_os.Tools.Executor.{World, ToolExecutor}
use scrappy_os.Brain.Limits.{Limits}
use scrappy_os.Brain.Run.{
  Agents, scrappy_error, answered, Decision, complete_it, replan_it, rollback_it, AgentDecision,
}
use scrappy_os.Brain.Orchestrator.Bounded.{
  is_exhausted, run-is_exhausted, StaysWithin, run-StaysWithin,
}
use scrappy_os.Brain.Orchestrator.Ends.{RunStands, run-RunStands}
use scrappy_os.Brain.Orchestrator.{run}

abbrev read_tool : Tool
read_tool = record {
  name = "fs.read";
  risk = read;
  min_risk = none;
  parse_arguments = λ a. valid a;
  classify = λ a. classified read "reads";
  affected_paths = λ a. [];
  run = λ a. finished end;
}

abbrev executor : ToolExecutor
executor = record {
  registry = record { tools = read_tool ∷ []; disabled = [] };
  policy = record { allow_approvals = true; workspace = []; resolve = λ path. [] };
  opening = record { ttl = 100; redact = λ a. a; describe_operation = λ t a. t; reload = λ a. a };
  explain = λ call v. v.rule;
  prompt = none;
}

abbrev step_of : String → PlanStep
step_of tool = record {
  id = "s";
  index = 0;
  intent = "look";
  tool_name = tool;
  arguments = end;
  expected_risk = read;
  expected_side_effects = [];
  success_criteria = none;
  rollback_hint = none;
}

abbrev plan_of : List PlanStep → Plan
plan_of steps = record {
  id = "p";
  task_id = "t";
  author = brahma;
  created_at = 0;
  reasoning = "";
  steps = steps;
  revision = 0;
  approved = true;
  review_notes = none;
}

abbrev says : String → AgentDecision
says role = record { task_id = "t"; role = role; decision = "continue"; reasoning = "" }

-- Agents that read two files and then decide as told.
abbrev agents : Decision → Agents ℕ
agents d = record {
  plan = λ steps feedback task e.
      (answered (plan_of (step_of "fs.read" ∷ step_of "fs.read" ∷ []), says "brahma"), e);
  review = λ task p e. (answered (p, says "vishnu"), e);
  verify = λ task e.
      (answered (record { decision = d; reasoning = "seen"; conclusion = "" }, says "vishnu"), e);
  recover = λ reason done task e. (
    answered (
      record { plan = plan_of (step_of "fs.read" ∷ []); diagnosis = "broken"; recoverable = true },
      says "mahesh",
    ),
    e,
  );
  add_plan = λ p e. e;
  note_result = λ r source e. (none, e);
  failure_summary = λ reason e. reason;
  monotonic = λ e. e;
  utc_now = λ e. e;
  occasion = λ e. record {
    max_risk = read;
    dry_run = false;
    approval_id = "a";
    started_at = 0;
    asked_at = 0;
    answered_at = 0;
    spent_at = 0;
    duration_ms = 1;
    is_stored = λ s. true;
  };
  call_id = λ e. "c";
}

abbrev objective : Objective
objective = record {
  id = "o";
  text = "look around";
  actor = "cli";
  identity = none;
  created_at = 0;
  max_risk = read;
  dry_run = false;
}

abbrev limits : Limits
limits = record {
  max_plan_steps = 5;
  max_replans = 3;
  max_task_seconds = 60;
  max_consecutive_tool_failures = 3;
  max_model_calls = 4;
}

abbrev world : World
world = record {
  gate = record { rows = []; waiters = []; delivered = []; events = [] };
  ledger = [];
  runs = [];
}

-- The state of the task, the tools run and the model calls at the end of a run.
abbrev ending : Decision → TaskState × ℕ × ℕ
ending d =
    let s = (run (agents d) executor "t" objective limits world 0).1 in
    (s.task.state, length s.world.runs, s.budget.model_calls)

endings :
    (ending complete_it ≡ (completed, 2, 3))
    × (ending replan_it ≡ (failed, 2, 6))
    × (ending rollback_it ≡ (failed, 3, 4))
unfolding run
endings = (refl, refl, refl)

-- The episodic memory fails: the run fails, with the tool that ran in its outcome and not counted.
abbrev forgetful : Agents ℕ
forgetful =
    let a = agents complete_it in
    record a { note_result = λ r source e. (some (scrappy_error "store operation failed"), e) }

abbrev forgotten : TaskState × ℕ × ℕ
forgotten =
    let s = (run forgetful executor "t" objective limits world 0).1 in
    (s.task.state, length s.executed, s.budget.steps_executed)

forgetting : forgotten ≡ (failed, 1, 0)
unfolding run
forgetting = refl

run-is_exhausted_example :
    is_exhausted (run (agents replan_it) executor "t" objective limits world 0).0 ≡ false
run-is_exhausted_example = run-is_exhausted (agents replan_it) executor "t" objective limits world 0

run-StaysWithin_example :
    StaysWithin limits (run (agents replan_it) executor "t" objective limits world 0).1
run-StaysWithin_example = run-StaysWithin (agents replan_it) executor "t" objective limits world 0

run-RunStands_example :
    RunStands
      (agents rollback_it)
      executor
      (run (agents rollback_it) executor "t" objective limits world 0)
run-RunStands_example = run-RunStands (agents rollback_it) executor "t" objective limits world 0
