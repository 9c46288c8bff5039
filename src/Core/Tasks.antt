-- ===== src/Core/Tasks.antt =====
-- src/scrappy_os/core/models.py: objectives, tasks and the legal task transitions.
-- A UTC time is a number of microseconds; a call that reads the clock takes the time as an argument.
pub mod Lifecycle
mod Tests
use Prim.Native.String
use scrappy_os.Prelude.{
  ℕ, String, Bool, true, false, ◌&&◌, Option, none, some, List, [], ◌∷◌, any, eqb, leb, ◌==◌,
  if◌then◌else◌,
}
use scrappy_os.Prelude.Text.{strip}
use scrappy_os.Core.Enums.{
  RiskLevel, TaskState, created, planning, awaiting_approval, executing, verifying, rolling_back,
  completed, failed, cancelled, is_terminal,
}
use scrappy_os.Core.Identity.{Actor, ActorType, human, service, node, system}

abbrev pub actor_type_value : ActorType → String
actor_type_value human = "human"
actor_type_value service = "service"
actor_type_value node = "node"
actor_type_value system = "system"

-- `Actor.label`
abbrev pub label : Actor → String
label a = String.◌++◌ (actor_type_value a.actor_type) (String.◌++◌ ":" a.id)

pub record Objective : Type 0 where
  pub id : String
  pub text : String
  pub actor : String
  pub identity : Option Actor
  pub created_at : ℕ
  pub max_risk : RiskLevel
  pub dry_run : Bool

-- The label that a verified identity puts in the place of a claimed one.
abbrev pub honest_label : Option Actor → String → String
honest_label none claimed = claimed
honest_label (some a) claimed = label a

-- Construction: the length limits, `_strip`, and `_label_follows_identity`; `none` is a
-- validation error. `context` is not modelled: nothing here reads it.
unfoldable pub make_objective : Objective → Option Objective
unfolding strip
make_objective o =
    let stripped = strip o.text in
    if leb 1 (String.count o.text) && leb (String.count o.text) 8000
    then if stripped == ""
      then none
      else some (record o { text = stripped; actor = honest_label o.identity o.actor })
    else none

-- `TASK_TRANSITIONS`
abbrev pub task_transitions : TaskState → List TaskState
task_transitions created = planning ∷ cancelled ∷ failed ∷ []
task_transitions planning = executing ∷ awaiting_approval ∷ completed ∷ failed ∷ cancelled ∷ []
task_transitions awaiting_approval = executing ∷ planning ∷ failed ∷ cancelled ∷ []
task_transitions executing =
    verifying ∷ awaiting_approval ∷ planning ∷ rolling_back ∷ failed ∷ cancelled ∷ []
task_transitions verifying =
    executing ∷ planning ∷ completed ∷ rolling_back ∷ failed ∷ cancelled ∷ []
task_transitions rolling_back = failed ∷ completed ∷ cancelled ∷ []
task_transitions completed = []
task_transitions failed = []
task_transitions cancelled = []

-- The place of a state in its enum, by which states are compared.
abbrev pub state_index : TaskState → ℕ
state_index created = 0
state_index planning = 1
state_index awaiting_approval = 2
state_index executing = 3
state_index verifying = 4
state_index rolling_back = 5
state_index completed = 6
state_index failed = 7
state_index cancelled = 8

abbrev pub state_eq : TaskState → TaskState → Bool
state_eq a b = eqb (state_index a) (state_index b)

unfoldable pub can_transition : TaskState → TaskState → Bool
can_transition current target = any (λ s. state_eq s target) (task_transitions current)

pub record Task : Type 0 where
  pub id : String
  pub objective : Objective
  pub state : TaskState
  pub created_at : ℕ
  pub updated_at : ℕ
  pub finished_at : Option ℕ
  pub plan_id : Option String
  pub replan_count : ℕ
  pub model_calls : ℕ
  pub summary : Option String
  pub error : Option String

-- `Task(id=..., objective=...)`
unfoldable pub new_task : String → Objective → ℕ → Task
new_task id objective now = record {
  id = id;
  objective = objective;
  state = created;
  created_at = now;
  updated_at = now;
  finished_at = none;
  plan_id = none;
  replan_count = 0;
  model_calls = 0;
  summary = none;
  error = none;
}

-- `none` is `InvalidStateTransition`.
unfoldable pub transition_to : ℕ → TaskState → Task → Option Task
unfolding can_transition
transition_to now target t =
    if state_eq target t.state
    then some t
    else if can_transition t.state target
    then some (record t {
      state = target;
      updated_at = now;
      finished_at = if is_terminal target then some now else t.finished_at;
    })
    else none
