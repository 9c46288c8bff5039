-- ===== src/Core/Calls.antt =====
-- src/scrappy_os/core/models.py: tool calls, their results, and the approval models.
use scrappy_os.Prelude.{
  ℕ, String, Bool, true, false, not, ◌&&◌, Option, none, some, leb, ◌==◌, if◌then◌else◌,
}
use scrappy_os.Core.Enums.{RiskLevel, PolicyDecision, ApprovalState}
use scrappy_os.Core.Identity.{Actor}
use scrappy_os.Core.Tasks.{honest_label}
use scrappy_os.Core.Values.{JsonFields}

pub record ToolCall : Type 0 where
  pub id : String
  pub task_id : String
  pub step_id : Option String
  pub tool_name : String
  pub arguments : JsonFields
  pub actor : String
  pub identity : Option Actor
  pub requested_at : ℕ
  pub risk_level : RiskLevel
  pub approval_state : Option ApprovalState
  pub approval_id : Option String
  pub policy_decision : Option PolicyDecision
  pub policy_rule : Option String

pub record ToolResult : Type 0 where
  pub call_id : String
  pub task_id : String
  pub tool_name : String
  pub success : Bool
  pub started_at : ℕ
  pub duration_ms : ℕ
  pub output : JsonFields
  pub error : Option String

abbrev pub is_blank : Option String → Bool
is_blank none = true
is_blank (some text) = text == ""

-- `_failure_needs_reason`: `none` is a validation error.
unfoldable pub make_result : ToolResult → Option ToolResult
make_result r = if not r.success && is_blank r.error then none else some r

pub record ApprovalRequest : Type 0 where
  pub id : String
  pub task_id : String
  pub call_id : Option String
  pub tool_name : String
  pub arguments : JsonFields
  pub risk : RiskLevel
  pub reason : String
  pub summary : String
  pub requested_at : ℕ
  pub expires_at : Option ℕ
  pub state : ApprovalState
  pub requires_confirmation_phrase : Bool
  pub confirmation_phrase : Option String

abbrev pub past_deadline : Option ℕ → ℕ → Bool
past_deadline none now = false
past_deadline (some deadline) now = leb deadline now

unfoldable pub is_expired : ApprovalRequest → ℕ → Bool
is_expired r now = past_deadline r.expires_at now

pub record ApprovalDecision : Type 0 where
  pub request_id : String
  pub approved : Bool
  pub decided_by : String
  pub identity : Option Actor
  pub decided_at : ℕ
  pub note : Option String
  pub confirmation_phrase : Option String

-- `_label_follows_identity`, run on construction.
unfoldable pub make_decision : ApprovalDecision → ApprovalDecision
make_decision d = record d { decided_by = honest_label d.identity d.decided_by }
