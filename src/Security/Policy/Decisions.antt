-- ===== src/Security/Policy/Decisions.antt =====
-- Exactly when the engine allows an operation, and exactly when it asks a human.
use scrappy_os.Prelude.{◌≡◌, ◌↔◌, ◌⊎◌, ◌≤◌, true, false, all, contains, arith, ◌+◌}
use scrappy_os.Core.Enums.{RiskLevel, read, write, destructive, rank, allow, require_approval}
use scrappy_os.Core.Identity.{is_empty_list}
use scrappy_os.Core.Calls.{ToolCall}
use scrappy_os.Security.Policy.{PolicyEngine, PolicyContext, inside_workspace, evaluate}

-- The tool is one of the known ones (no list of known tools stands for "all").
abbrev pub IsKnown : ToolCall → PolicyContext → Type 0
IsKnown call ctx =
    (is_empty_list ctx.known_tools ≡ true) ⊎ (contains ctx.known_tools call.tool_name ≡ true)

-- What every operation that is not denied has passed: a known tool that is enabled, a risk under
-- the ceiling, and no change to the machine in a dry run.
pub record PassesGuards (call : ToolCall) (risk : RiskLevel) (ctx : PolicyContext) : Type 0 where
  pub known : IsKnown call ctx
  pub enabled : contains ctx.disabled_tools call.tool_name ≡ false
  pub effective : (ctx.dry_run ≡ false) ⊎ (risk ≡ read)
  pub capped : rank risk ≤ rank ctx.max_risk

-- An operation proceeds without a human exactly when it passes the guards and either only reads, or
-- writes with every path that it touches inside the workspace.
pub evaluate-allow_iff :
    (e : PolicyEngine) (call : ToolCall) (risk : RiskLevel) (ctx : PolicyContext)
    → ((evaluate e call risk ctx).decision ≡ allow) ↔ (
        PassesGuards call risk ctx
        × ((risk ≡ read) ⊎ ((risk ≡ write) × (all (inside_workspace e) ctx.paths ≡ true))))
unfolding evaluate
evaluate-allow_iff e call risk ctx = ground arith

-- A human is asked exactly when the operation passes the guards and either writes outside the
-- workspace, or is more than a write on an instance that has approvals.
pub evaluate-require_approval_iff :
    (e : PolicyEngine) (call : ToolCall) (risk : RiskLevel) (ctx : PolicyContext)
    → ((evaluate e call risk ctx).decision ≡ require_approval) ↔ (
        PassesGuards call risk ctx
        × (((risk ≡ write) × (all (inside_workspace e) ctx.paths ≡ false))
            ⊎ ((rank write + 1 ≤ rank risk) × (e.allow_approvals ≡ true))))
unfolding evaluate
evaluate-require_approval_iff e call risk ctx = ground arith

-- The typed confirmation is asked for exactly when a destructive operation goes to a human.
pub evaluate-confirmation_iff :
    (e : PolicyEngine) (call : ToolCall) (risk : RiskLevel) (ctx : PolicyContext)
    → ((evaluate e call risk ctx).requires_confirmation_phrase ≡ true)
      ↔ (((evaluate e call risk ctx).decision ≡ require_approval) × (risk ≡ destructive))
unfolding evaluate
evaluate-confirmation_iff e call risk ctx = ground arith
