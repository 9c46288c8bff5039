-- ===== src/Security/Approvals/Trace.antt =====
-- Any sequence of calls of the gate, by whatever callers, each finished before the next starts, and
-- what it does to one row.
use scrappy_os.Prelude.{
  ℕ, String, ◌≡◌, inl, inr, refl, Bool, Option, none, some, List, [], ◌∷◌, arith, ◌==◌,
  if◌then◌else◌, Option-cases, Bool-cases,
}
use scrappy_os.Core.Enums.{RiskLevel, pending}
use scrappy_os.Core.Calls.{ToolCall, ApprovalDecision}
use scrappy_os.Security.Approvals.{
  ApprovalRow, Gate, Opening, find_row, request, resolve, consume, expire, wait_for, wait_timeout,
  open_request, request_to_row, open_request, open_request, open_request, open_request,
  open_request,
}
use scrappy_os.Security.Approvals.Rows.{
  find_row-id, find_row-append, resolve_row, consume_row, expire_row, find_row-resolve,
  find_row-consume, find_row-expire, rows-request, rows-wait_for, rows-wait_timeout,
}

-- One call, with the clock readings and the identifiers that it takes.
pub data Op : Type 0 where
  opening : Opening → String → ℕ → ToolCall → RiskLevel → String → Bool → Op
  answering : ℕ → ApprovalDecision → Op
  spending : ℕ → String → Op
  lapsing : String → Op
  awaiting : ℕ → String → Op
  giving_up : ℕ → String → String → Op

unfoldable pub step : Op → Gate → Gate
step (opening o id now call risk reason phrase) g = (request o id now call risk reason phrase g).1
step (answering now d) g = (resolve now d g).1
step (spending now id) g = (consume now id g).1
step (lapsing id) g = expire id g
step (awaiting now id) g = (wait_for now id g).1
step (giving_up now id note) g = (wait_timeout now id note g).1

unfoldable pub run : List Op → Gate → Gate
run [] g = g
run (op ∷ ops) g = run ops (step op g)

-- What a call makes of a row that is there.
abbrev pub row_after : Op → ApprovalRow → ApprovalRow
row_after (opening o id now call risk reason phrase) row = row
row_after (answering now d) row = if d.request_id == row.id then resolve_row now d row else row
row_after (spending now id) row = if id == row.id then consume_row now row else row
row_after (lapsing id) row = if id == row.id then expire_row row else row
row_after (awaiting now id) row = row
row_after (giving_up now id note) row = if id == row.id then expire_row row else row

-- A call leaves a row in the table, changed as `row_after` says.
pub find_row-step :
    (op : Op) (g : Gate) (j : String) (row : ApprovalRow)
    → find_row j g.rows ≡ some row
    → find_row j (step op g).rows ≡ some (row_after op row)
unfolding step
find_row-step (opening o id now call risk reason phrase) g j row h =
    elim (Option-cases (find_row id g.rows)) [
      | inl e ↦ rw (rows-request, e, find_row-append, h) refl
      | inr (other, e) ↦ rw (rows-request, e) h
    ]
find_row-step (answering now d) g j row h =
    rw (find_row-resolve, h) (ground (arith, find_row-id j g.rows row h))
find_row-step (spending now id) g j row h =
    rw (find_row-consume, h) (ground (arith, find_row-id j g.rows row h))
find_row-step (lapsing id) g j row h =
    rw (find_row-expire, h) (ground (arith, find_row-id j g.rows row h))
find_row-step (awaiting now id) g j row h = rw rows-wait_for h
find_row-step (giving_up now id note) g j row h =
    rw (rows-wait_timeout, find_row-expire, h) (ground (arith, find_row-id j g.rows row h))

-- A row that a call adds is pending.
pub data Appears (o : Option ApprovalRow) : Type 0 where
  absent : o ≡ none → Appears o
  opened : (row : ApprovalRow) → o ≡ some row → row.state ≡ pending → Appears o

opened_at :
    (id : String) (o : Opening) (now : ℕ) (call : ToolCall) (risk : RiskLevel) (reason : String)
    (phrase : Bool) (g : Gate) (j : String)
    → find_row j g.rows ≡ none
    → find_row id g.rows ≡ none
    → Appears (find_row j (request o id now call risk reason phrase g).1.rows)
opened_at id o now call risk reason phrase g j h e =
    let row = request_to_row o.reload (open_request o id now call risk reason phrase) in
    elim (Bool-cases (id == j)) [
      | inl same ↦
          opened row (rw (rows-request, e, find_row-append, h) (unfold request_to_row in rw same))
            (unfold request_to_row in refl)
      | inr other ↦
          absent (rw (rows-request, e, find_row-append, h) (unfold request_to_row in rw other))
    ]

pub find_row-step_new :
    (op : Op) (g : Gate) (j : String)
    → find_row j g.rows ≡ none
    → Appears (find_row j (step op g).rows)
unfolding step
find_row-step_new (opening o id now call risk reason phrase) g j h =
    elim (Option-cases (find_row id g.rows)) [
      | inl e ↦ opened_at id o now call risk reason phrase g j h e
      | inr (other, e) ↦ absent (rw (rows-request, e) h)
    ]
find_row-step_new (answering now d) g j h = absent (rw (find_row-resolve, h) (ground arith))
find_row-step_new (spending now id) g j h = absent (rw (find_row-consume, h) (ground arith))
find_row-step_new (lapsing id) g j h = absent (rw (find_row-expire, h) (ground arith))
find_row-step_new (awaiting now id) g j h = absent (rw rows-wait_for h)
find_row-step_new (giving_up now id note) g j h =
    absent (rw (rows-wait_timeout, find_row-expire, h) (ground arith))
