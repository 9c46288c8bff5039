-- ===== src/Security/Approvals/Persistence.antt =====
-- What is read back of a request that was stored.
use scrappy_os.Prelude.{◌≡◌, ◌↔◌, arith, String, ℕ, Bool, none, some, eq_iff}
use scrappy_os.Security.Approvals.{
  Opening, Gate, request, get, is_destructive, find_row, request_to_row, row_to_request,
  open_request, ToolCall, RiskLevel,
}
use scrappy_os.Security.Approvals.Rows.{rows-request, find_row-append}

-- A request that was stored under a new id is read back unchanged exactly if its redacted arguments
-- survive their column, and it asks for the typed confirmation when, and only when, its risk is
-- destructive: no column holds the confirmation.
pub get-request :
    (o : Opening) (id : String) (now : ℕ) (call : ToolCall) (risk : RiskLevel) (reason : String)
    (phrase : Bool) (g : Gate)
    → find_row id g.rows ≡ none
    → (get id (request o id now call risk reason phrase g).1
        ≡ some (open_request o id now call risk reason phrase))
      ↔ (o.reload (o.redact call.arguments) ≡ o.redact call.arguments)
        × (phrase ≡ is_destructive risk)
unfolding get
get-request o id now call risk reason phrase g new =
    rw (rows-request, new, find_row-append, new)
      (unfold request_to_row row_to_request in ground (arith, eq_iff id id))
