-- ===== src/Core/Enums.antt =====
-- src/scrappy_os/core/enums.py: risk levels and the states of approvals and tasks.
-- A `StrEnum` member is a constructor.
use scrappy_os.Prelude.{ℕ, String, Bool, true, false, List, [], ◌∷◌, leb, ltb, if◌then◌else◌}

pub data RiskLevel : Type 0 where
  read write privileged destructive : RiskLevel

-- The members' string values.
abbrev pub risk_value : RiskLevel → String
risk_value read = "read"
risk_value write = "write"
risk_value privileged = "privileged"
risk_value destructive = "destructive"

-- `_RISK_ORDER`
abbrev pub rank : RiskLevel → ℕ
rank read = 0
rank write = 1
rank privileged = 2
rank destructive = 3

abbrev pub at_least : RiskLevel → RiskLevel → Bool
at_least level other = leb (rank other) (rank level)

-- Python's `max` keeps the first of equals; a later level wins only if its rank is greater.
max_from : RiskLevel → List RiskLevel → RiskLevel
max_from best [] = best
max_from best (level ∷ levels) =
    max_from (if ltb (rank best) (rank level) then level else best) levels

unfoldable pub risk_max : List RiskLevel → RiskLevel
unfolding max_from
risk_max [] = read
risk_max (level ∷ levels) = max_from level levels

pub data PolicyDecision : Type 0 where
  allow require_approval deny : PolicyDecision

abbrev pub decision_value : PolicyDecision → String
decision_value allow = "allow"
decision_value require_approval = "require_approval"
decision_value deny = "deny"

pub data ApprovalState : Type 0 where
  pending approved denied expired consumed : ApprovalState

pub data TaskState : Type 0 where
  created planning awaiting_approval executing verifying : TaskState
  rolling_back completed failed cancelled : TaskState

-- `_TERMINAL_STATES`
abbrev pub is_terminal : TaskState → Bool
is_terminal completed = true
is_terminal failed = true
is_terminal cancelled = true
is_terminal _ = false
