-- ===== src/Core/Plans.antt =====
-- src/scrappy_os/core/models.py: plan steps and plans.
use scrappy_os.Prelude.{ℕ, suc, String, Bool, Option, List, [], ◌∷◌, map}
use scrappy_os.Core.Enums.{RiskLevel, risk_max}
use scrappy_os.Core.Values.{JsonFields}

pub data AgentRole : Type 0 where
  brahma vishnu mahesh : AgentRole

pub record PlanStep : Type 0 where
  pub id : String
  pub index : ℕ
  pub intent : String
  pub tool_name : String
  pub arguments : JsonFields
  pub expected_risk : RiskLevel
  pub expected_side_effects : List String
  pub success_criteria : Option String
  pub rollback_hint : Option String

pub record Plan : Type 0 where
  pub id : String
  pub task_id : String
  pub author : AgentRole
  pub created_at : ℕ
  pub reasoning : String
  pub steps : List PlanStep
  pub revision : ℕ
  pub approved : Bool
  pub review_notes : Option String

reindex_from : ℕ → List PlanStep → List PlanStep
reindex_from position [] = []
reindex_from position (s ∷ steps) =
    (record s { index = position }) ∷ reindex_from (suc position) steps

-- `_reindex`, run on construction.
unfoldable pub make_plan : Plan → Plan
unfolding reindex_from
make_plan p = record p { steps = reindex_from 0 p.steps }

-- `Plan.max_risk`
unfoldable pub plan_risk : Plan → RiskLevel
unfolding risk_max
plan_risk p = risk_max (map (λ (s : PlanStep). s.expected_risk) p.steps)
