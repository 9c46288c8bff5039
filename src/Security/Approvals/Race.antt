-- ===== src/Security/Approvals/Race.antt =====
-- Calls that come in between the read and the update of `consume` or `resolve`. Both wait for the
-- database there, and the updates do not test the state again.
use scrappy_os.Security.Approvals.Rows.{find_row-update, find_row-id}
use scrappy_os.Prelude.{
  ◌≡◌, false, some, List, [], ◌∷◌, ℕ, String, Bool, true, ◌↔◌, ◌&&◌, not, arith, eq_iff, refl,
}
use scrappy_os.Core.Enums.{approved, pending, consumed}
use scrappy_os.Core.Calls.{past_deadline, ApprovalDecision}
use scrappy_os.Security.Approvals.{
  Gate, ApprovalRow, find_row, get, consume_read, resolve_read, decide_row, is_destructive,
  verdict_of, text_eq?, confirmation_phrase,
}
use scrappy_os.Security.Approvals.Single.{is_ok}
use scrappy_os.Security.Approvals.Trace.{Op, run, step, find_row-step, row_after}

-- What a sequence of calls makes of a row that is there.
unfoldable pub row_after_all : List Op → ApprovalRow → ApprovalRow
row_after_all [] row = row
row_after_all (op ∷ ops) row = row_after_all ops (row_after op row)

pub find_row-run :
    (ops : List Op) (g : Gate) (j : String) (row : ApprovalRow)
    → find_row j g.rows ≡ some row
    → find_row j (run ops g).rows ≡ some (row_after_all ops row)
unfolding run row_after_all
find_row-run [] g j row h = h
find_row-run (op ∷ ops) g j row h =
    find_row-run ops (step op g) j (row_after op row) (find_row-step op g j row h)

-- `consume` of `id` reads its row, the calls `ops` come in between, and then it goes on.
abbrev pub late_consume : ℕ → String → List Op → Gate → Bool × Gate
late_consume now id ops g =
    let (answer, g') = consume_read now id (get id g) (run ops g) in (is_ok answer, g')

-- `resolve` with the decision `d`, in the same way.
abbrev pub late_resolve : ℕ → ApprovalDecision → List Op → Gate → Bool × Gate
late_resolve now d ops g =
    let (answer, g') = resolve_read now d (run ops g) (get d.request_id g) in (is_ok answer, g')

abbrev pub IsSpendableRow : ℕ → ApprovalRow → Type 0
IsSpendableRow now row = (row.state ≡ approved) × (past_deadline row.expires_at now ≡ false)

abbrev pub lacks_phrase : ApprovalDecision → ApprovalRow → Bool
lacks_phrase d row =
    d.approved
    && is_destructive row.risk
    && not (text_eq? d.confirmation_phrase (some confirmation_phrase))

abbrev pub IsAnswerableRow : ℕ → ApprovalDecision → ApprovalRow → Type 0
IsAnswerableRow now d row =
    (row.state ≡ pending)
    × (past_deadline row.expires_at now ≡ false)
    × (lacks_phrase d row ≡ false)

-- A `consume` that other calls come into, after its read: it succeeds exactly if the row that it
-- read was approved and in time, whatever the calls have made of that row since; and where it
-- succeeds, the row is consumed after it, also if the calls had let it expire or had consumed it.
pub consume_late :
    (now : ℕ) (id : String) (ops : List Op) (g : Gate) (row : ApprovalRow)
    → find_row id g.rows ≡ some row
    → (((late_consume now id ops g).0 ≡ true) ↔ IsSpendableRow now row)
      × ((late_consume now id ops g).0 ≡ true
          → find_row id (late_consume now id ops g).1.rows
            ≡ some (record (row_after_all ops row) { state = consumed }))
unfolding get consume_read
consume_late now id ops g row e = rw e (
  ground arith,
  λ won. ground (
    arith,
    eq_iff id id,
    find_row-run ops g id row e,
    find_row-update id id (λ r. record r { state = consumed }) (λ r. refl) (run ops g).rows,
  ),
)

-- A `resolve` that other calls come into, after its read: it succeeds exactly if the row that it
-- read was pending and in time and the phrase is given where it is needed, whatever the calls have
-- made of that row since; and where it succeeds, its verdict is written over what they made of it.
pub resolve_late :
    (now : ℕ) (d : ApprovalDecision) (ops : List Op) (g : Gate) (row : ApprovalRow)
    → find_row d.request_id g.rows ≡ some row
    → (((late_resolve now d ops g).0 ≡ true) ↔ IsAnswerableRow now d row)
      × ((late_resolve now d ops g).0 ≡ true
          → find_row d.request_id (late_resolve now d ops g).1.rows
            ≡ some (decide_row (verdict_of d.approved) d d.note (row_after_all ops row)))
unfolding get resolve_read
resolve_late now d ops g row e = rw e (
  ground arith,
  λ won. ground (
    arith,
    eq_iff d.request_id d.request_id,
    find_row-id d.request_id g.rows row e,
    find_row-run ops g d.request_id row e,
    find_row-update row.id d.request_id (decide_row (verdict_of d.approved) d d.note) (λ r. refl)
        (run ops g).rows,
  ),
)
