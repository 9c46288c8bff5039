-- ===== src/Security/Policy/Tests.antt =====
-- Runs of the policy engine, and the theorems at concrete inputs.
use scrappy_os.Prelude.{
  String, ◌≡◌, refl, ◌↔◌, ◌⊎◌, ◌≤◌, true, false, none, [], ◌∷◌, all, arith, ◌+◌, if◌then◌else◌,
  ◌==◌,
}
use scrappy_os.Core.Enums.{
  RiskLevel, read, write, privileged, destructive, rank, allow, require_approval, deny,
}
use scrappy_os.Core.Calls.{ToolCall}
use scrappy_os.Core.Values.{end}
use scrappy_os.Security.Policy.{PolicyEngine, PolicyContext, evaluate, inside_workspace}
use scrappy_os.Security.Policy.Decisions.{
  PassesGuards, evaluate-allow_iff, evaluate-require_approval_iff, evaluate-confirmation_iff,
}
use scrappy_os.Security.Policy.Monotone.{severity, evaluate-mono_risk, evaluate-raise_ceiling}

abbrev engine : PolicyEngine
engine = record {
  allow_approvals = true;
  workspace = "data" ∷ "ws" ∷ [];
  resolve = λ path. if path == "notes.txt" then "data" ∷ "ws" ∷ path ∷ [] else "etc" ∷ path ∷ [];
}

abbrev call : ToolCall
call = record {
  id = "c1";
  task_id = "t1";
  step_id = none;
  tool_name = "fs.write";
  arguments = end;
  actor = "agent:brahma";
  identity = none;
  requested_at = 0;
  risk_level = read;
  approval_state = none;
  approval_id = none;
  policy_decision = none;
  policy_rule = none;
}

abbrev context : String → RiskLevel → PolicyContext
context path ceiling = record {
  max_risk = ceiling;
  dry_run = false;
  known_tools = "fs.write" ∷ "fs.read" ∷ [];
  disabled_tools = [];
  paths = path ∷ [];
  actor = none;
}

rules :
    ((evaluate engine call write (context "notes.txt" write)).rule ≡ "write-in-workspace")
    × ((evaluate engine call write (context "passwd" write)).rule ≡ "write-outside-workspace")
    × ((evaluate engine call privileged (context "passwd" write)).rule ≡ "risk-ceiling")
    × ((evaluate engine call destructive (context "passwd" destructive)).decision
        ≡ require_approval)
unfolding evaluate
rules = (refl, refl, refl, refl)

evaluate-allow_iff_example :
    ((evaluate engine call write (context "notes.txt" write)).decision ≡ allow) ↔ (
      PassesGuards call write (context "notes.txt" write)
      × ((◌≡◌ {A = RiskLevel} write read)
          ⊎ ((◌≡◌ {A = RiskLevel} write write)
              × (all (inside_workspace engine) ("notes.txt" ∷ []) ≡ true))))
evaluate-allow_iff_example = evaluate-allow_iff engine call write (context "notes.txt" write)

evaluate-require_approval_iff_example :
    ((evaluate engine call write (context "passwd" write)).decision ≡ require_approval) ↔ (
      PassesGuards call write (context "passwd" write)
      × (((◌≡◌ {A = RiskLevel} write write)
            × (all (inside_workspace engine) ("passwd" ∷ []) ≡ false))
          ⊎ ((rank write + 1 ≤ rank write) × (engine.allow_approvals ≡ true))))
evaluate-require_approval_iff_example =
    evaluate-require_approval_iff engine call write (context "passwd" write)

evaluate-confirmation_iff_case :
    ((evaluate engine call destructive (context "passwd" destructive)).requires_confirmation_phrase
      ≡ true)
    ↔ (((evaluate engine call destructive (context "passwd" destructive)).decision
          ≡ require_approval)
        × (◌≡◌ {A = RiskLevel} destructive destructive))
evaluate-confirmation_iff_case =
    evaluate-confirmation_iff engine call destructive (context "passwd" destructive)

evaluate-mono_risk_example :
    severity (evaluate engine call write (context "passwd" write)).decision
    ≤ severity (evaluate engine call privileged (context "passwd" write)).decision
evaluate-mono_risk_example =
    evaluate-mono_risk engine call write privileged (context "passwd" write) (omega arith)

evaluate-raise_ceiling_case :
    ((evaluate engine call write (context "notes.txt" write)).decision ≡ deny)
    ⊎ (evaluate engine call write (context "notes.txt" destructive)
        ≡ evaluate engine call write (context "notes.txt" write))
evaluate-raise_ceiling_case =
    evaluate-raise_ceiling engine call write (context "notes.txt" write) destructive (omega arith)
