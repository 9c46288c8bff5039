-- ===== src/Brain/Run.antt =====
-- src/scrappy_os/brain/orchestrator.py: the state of a run, and one step of its plan.
-- The three agents, the clocks, fresh ids, and the memory stand behind `Agents`, on a state `E` of
-- their own. Logs, durations, and counts in event payloads and summaries are left out.
pub mod Within
use Prim.Native.String
use scrappy_os.Prelude.{
  ℕ, suc, String, Bool, Option, none, some, List, [], ◌∷◌, ◌++◌, if◌then◌else◌, ◌==◌,
}
use scrappy_os.Core.Values.{str, JsonFields, end, field}
use scrappy_os.Core.Tasks.{Task}
use scrappy_os.Core.Plans.{Plan, PlanStep}
use scrappy_os.Core.Calls.{ToolCall, ToolResult}
use scrappy_os.Core.Events.{EventType, make_event, agent_decided}
use scrappy_os.Security.Approvals.{publish}
use scrappy_os.Tools.Executor.{
  World, ToolExecutor, Occasion, ExecutionOutcome, Execution, outcome, invalid_result, store_error,
  broken_classification, execute,
}
use scrappy_os.Brain.Limits.{TaskBudget, check_replans, record_model_call, record_replan}

-- What ends a run early: the three kinds of `ScrappyError` that `run` tells apart, with their
-- messages, and any other exception, which `run` lets out.
pub data Failure : Type 0 where
  limit_exceeded provider_error scrappy_error : String → Failure
  escaped : Failure

pub data Answer (A : Type 0) : Type 0 where
  answered : A → Answer A
  raised : Failure → Answer A

pub data Decision : Type 0 where
  continue_it replan_it rollback_it complete_it abort_it : Decision

abbrev pub decision_text : Decision → String
decision_text continue_it = "continue"
decision_text replan_it = "replan"
decision_text rollback_it = "rollback"
decision_text complete_it = "complete"
decision_text abort_it = "abort"

pub record Verification : Type 0 where
  pub decision : Decision
  pub reasoning : String
  pub conclusion : String

pub record Recovery : Type 0 where
  pub plan : Plan
  pub diagnosis : String
  pub recoverable : Bool

-- One reasoning turn, as it is published.
pub record AgentDecision : Type 0 where
  pub task_id : String
  pub role : String
  pub decision : String
  pub reasoning : String

pub record Agents (E : Type 0) : Type 0 where
  pub plan : ℕ → Option String → Task → E → Answer (Plan × AgentDecision) × E
  pub review : Task → Plan → E → Answer (Plan × AgentDecision) × E
  pub verify : Task → E → Answer (Verification × AgentDecision) × E
  pub recover : String → List PlanStep → Task → E → Answer (Recovery × AgentDecision) × E
  pub add_plan : Plan → E → E
  pub note_result : ToolResult → String → E → Option Failure × E
  pub failure_summary : String → E → String
  pub monotonic : E → ℕ
  pub utc_now : E → ℕ
  pub occasion : E → Occasion
  pub call_id : E → String

-- A run on its way: the task, its budget, the executor's world and the agents' state, and what the
-- outcome has so far.
pub record Run (E : Type 0) : Type 0 where
  pub task : Task
  pub budget : TaskBudget
  pub world : World
  pub env : E
  pub executed : List ExecutionOutcome
  pub decisions : List AgentDecision
  pub conclusion : String
  pub succeeded : Bool
  pub stopped_because : Option String

-- What one cycle of the loop comes to: another cycle with feedback, the end of the task, or an
-- exception.
pub data Next : Type 0 where
  again : String → Next
  ended : Next
  stopped : Failure → Next

abbrev pub emit_for : {E : Type 0} → EventType → String → JsonFields → Run E → Run E
emit_for event_type component payload s =
    let w = s.world in
    record s {
      world = record w {
        gate =
            publish
              (make_event event_type (some s.task.id) component s.task.objective.identity payload)
              w.gate;
      };
    }

-- A reasoning turn is counted, by the task and by the budget, and its decision kept and published.
-- The source counts it for the task in `_ask`, also where the agent then raises on the answer.
abbrev pub decided : {E : Type 0} → AgentDecision → Run E → Run E
decided d s =
    let w = s.world in
    let t = s.task in
    record s {
      task = record t { model_calls = suc t.model_calls };
      budget = record_model_call s.budget;
      decisions = s.decisions ++ d ∷ [];
      world = record w {
        gate =
            publish
              (make_event agent_decided (some d.task_id) d.role s.task.objective.identity
                (field "decision" (str d.decision) (field "reasoning" (str d.reasoning) end)))
              w.gate;
      };
    }

abbrev pub with_task : {E : Type 0} → Task → Run E → Run E
with_task t s = record s { task = t }

abbrev pub with_env : {E : Type 0} → E → Run E → Run E
with_env e s = record s { env = e }

abbrev pub refused_transition : Next
refused_transition = stopped (scrappy_error "invalid state transition")

-- `text or default`
abbrev pub text_or : Option String → String → String
text_or none otherwise = otherwise
text_or (some t) otherwise = if t == "" then otherwise else t

-- The back edge of the loop: another cycle costs a replan.
module _ {E : Type 0} where
  replan_with : Option String → String → Run E → Next × Run E
  replan_with (some message) feedback s = (stopped (limit_exceeded message), s)
  replan_with none feedback s =
      let t = s.task in
      (
        again feedback,
        record s {
          budget = record_replan s.budget;
          task = record t { replan_count = suc t.replan_count };
        },
      )

  unfoldable pub replan : String → Run E → Next × Run E
  unfolding replan_with check_replans
  replan feedback s = replan_with (check_replans s.budget) feedback s

module _ {E : Type 0} (agents : Agents E) (executor : ToolExecutor) where
  -- `_execute_step`
  abbrev step_call : PlanStep → Run E → ToolCall
  step_call step s = record {
    id = agents.call_id s.env;
    task_id = s.task.id;
    step_id = some step.id;
    tool_name = step.tool_name;
    arguments = step.arguments;
    actor = "agent:brahma";
    identity = s.task.objective.identity;
    requested_at = agents.utc_now s.env;
    risk_level = step.expected_risk;
    approval_state = none;
    approval_id = none;
    policy_decision = none;
    policy_rule = none;
  }

  abbrev step_occasion : Run E → Occasion
  step_occasion s =
      let o = agents.occasion s.env in
      record o { max_risk = s.task.objective.max_risk; dry_run = s.task.objective.dry_run }

  -- The result is in the working memory, and the episodic memory has stored it or failed.
  remembered : ExecutionOutcome → Option Failure × E → Run E → Answer ExecutionOutcome × Run E
  remembered o (none, env) s = (answered o, with_env env s)
  remembered o (some f, env) s = (raised f, with_env env s)

  -- An error of the store is a `ScrappyError`; a result that does not validate is none.
  noted : PlanStep → Execution × World → Run E → Answer ExecutionOutcome × Run E
  unfolding remembered
  noted step (outcome o, w) s =
      remembered o (agents.note_result o.result step.tool_name s.env)
        (record s { world = w; executed = s.executed ++ o ∷ [] })
  noted step (invalid_result, w) s = (raised escaped, record s { world = w })
  noted step (broken_classification, w) s = (raised escaped, record s { world = w })
  noted step (store_error, w) s =
      (raised (scrappy_error "store operation failed"), record s { world = w })

  unfoldable pub execute_step : PlanStep → Run E → Answer ExecutionOutcome × Run E
  unfolding noted execute
  execute_step step s = noted step (execute executor (step_occasion s) (step_call step s) s.world) s
