-- ===== src/Security/Policy/Monotone.antt =====
-- How the decisions of the engine move with the risk and the ceiling.
use scrappy_os.Prelude.{ℕ, ◌≤◌, arith, ◌≡◌, ◌⊎◌}
use scrappy_os.Core.Enums.{RiskLevel, rank, PolicyDecision, allow, require_approval, deny}
use scrappy_os.Core.Calls.{ToolCall}
use scrappy_os.Security.Policy.{PolicyEngine, PolicyContext, evaluate}

-- How restrictive a decision is.
abbrev pub severity : PolicyDecision → ℕ
severity allow = 0
severity require_approval = 1
severity deny = 2

-- Of two classifications of one operation, the more dangerous gets a decision at least as
-- restrictive.
pub evaluate-mono_risk :
    (e : PolicyEngine) (call : ToolCall) (low high : RiskLevel) (ctx : PolicyContext)
    → rank low ≤ rank high
    → severity (evaluate e call low ctx).decision ≤ severity (evaluate e call high ctx).decision
unfolding evaluate
evaluate-mono_risk e call low high ctx h = ground arith

-- Raising the ceiling of an objective changes no decision but a denial.
pub evaluate-raise_ceiling :
    (e : PolicyEngine) (call : ToolCall) (risk : RiskLevel) (ctx : PolicyContext)
    (ceiling : RiskLevel)
    → rank ctx.max_risk ≤ rank ceiling
    → ((evaluate e call risk ctx).decision ≡ deny)
      ⊎ (evaluate e call risk (record ctx { max_risk = ceiling }) ≡ evaluate e call risk ctx)
unfolding evaluate
evaluate-raise_ceiling e call risk ctx ceiling h = ground arith
