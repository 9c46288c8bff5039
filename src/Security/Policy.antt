-- ===== src/Security/Policy.antt =====
-- src/scrappy_os/security/policy.py: the policy engine.
-- A verdict's `reason`, a text for people, is left out. `expanduser().resolve()` looks at the file
-- system and is a parameter: it gives the components of the resolved absolute path.
pub mod Decisions
pub mod Monotone
mod Tests
use scrappy_os.Prelude.{
  String, Bool, true, false, not, ◌&&◌, Option, none, List, [], ◌∷◌, all, contains, ltb, ◌==◌,
  if◌then◌else◌,
}
use scrappy_os.Core.Enums.{
  RiskLevel, read, write, privileged, destructive, rank, at_least, PolicyDecision, allow,
  require_approval, deny,
}
use scrappy_os.Core.Identity.{Actor, is_empty_list}
use scrappy_os.Core.Calls.{ToolCall}

-- A resolved path, from the root.
abbrev pub FilePath : Type 0
FilePath = List String

-- `path == root or path.is_relative_to(root)`
abbrev pub is_within : FilePath → FilePath → Bool
is_within path [] = true
is_within [] (r ∷ root) = false
is_within (p ∷ path) (r ∷ root) = (p == r) && is_within path root

pub record PolicyVerdict : Type 0 where
  pub decision : PolicyDecision
  pub risk : RiskLevel
  pub rule : String
  pub requires_confirmation_phrase : Bool

abbrev pub verdict : PolicyDecision → RiskLevel → String → PolicyVerdict
verdict decision risk rule = record {
  decision = decision;
  risk = risk;
  rule = rule;
  requires_confirmation_phrase = false;
}

abbrev pub is_denied : PolicyVerdict → Bool
is_denied v = elim v.decision [ deny ↦ true | _ ↦ false ]

abbrev pub needs_approval : PolicyVerdict → Bool
needs_approval v = elim v.decision [ require_approval ↦ true | _ ↦ false ]

pub record PolicyContext : Type 0 where
  pub max_risk : RiskLevel
  pub dry_run : Bool
  pub known_tools : List String
  pub disabled_tools : List String
  pub paths : List String
  pub actor : Option Actor

-- The engine's settings, its resolved workspace, and the path resolver.
pub record PolicyEngine : Type 0 where
  pub allow_approvals : Bool
  pub workspace : FilePath
  pub resolve : String → FilePath

abbrev pub inside_workspace : PolicyEngine → String → Bool
inside_workspace e path = is_within (e.resolve path) e.workspace

-- The rules from `write` on, which all stand behind the guards of `evaluate`. The source ends in a
-- default denial, which no member of `RiskLevel` reaches.
by_risk : PolicyEngine → RiskLevel → List String → PolicyVerdict
by_risk e read paths = verdict allow read "read-allowed"
by_risk e write paths =
    if all (inside_workspace e) paths
    then verdict allow write "write-in-workspace"
    else verdict require_approval write "write-outside-workspace"
by_risk e privileged paths = verdict require_approval privileged "privileged-requires-approval"
by_risk e destructive paths = record {
  decision = require_approval;
  risk = destructive;
  rule = "destructive-requires-confirmation";
  requires_confirmation_phrase = true;
}

abbrev is_read : RiskLevel → Bool
is_read read = true
is_read _ = false

unfoldable pub evaluate : PolicyEngine → ToolCall → RiskLevel → PolicyContext → PolicyVerdict
unfolding by_risk
evaluate e call risk ctx =
    if not (is_empty_list ctx.known_tools) && not (contains ctx.known_tools call.tool_name)
    then verdict deny destructive "unknown-tool"
    else if contains ctx.disabled_tools call.tool_name
    then verdict deny risk "tool-disabled"
    else if at_least risk write && ctx.dry_run
    then verdict deny risk "dry-run"
    else if ltb (rank ctx.max_risk) (rank risk)
    then verdict deny risk "risk-ceiling"
    else if is_read risk
    then by_risk e risk ctx.paths
    else if not e.allow_approvals && at_least risk privileged
    then verdict deny risk "approvals-disabled"
    else by_risk e risk ctx.paths
