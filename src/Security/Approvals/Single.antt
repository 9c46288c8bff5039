-- ===== src/Security/Approvals/Single.antt =====
-- Spending an approval: when it succeeds, and how often.
use scrappy_os.Security.Approvals.Rows.{consume_row, find_row-id}
use scrappy_os.Prelude.{
  ℕ, ◌+◌, ◌≤◌, String, ◌≡◌, inl, inr, refl, Bool, true, false, Option, none, some, List, [], ◌∷◌,
  arith, eq_iff, ◌==◌, if◌then◌else◌, Bool-cases, ◌↔◌, ◌&&◌, ◌∙◌, sym,
}
use scrappy_os.Core.Enums.{approved, consumed}
use scrappy_os.Core.Calls.{past_deadline}
use scrappy_os.Security.Approvals.{
  ApprovalRow, Gate, Result, ok, err, find_row, consume, consume_read, row_to_request, read_row,
}
use scrappy_os.Security.Approvals.Trace.{Op, opening, spending, step, row_after, find_row-step}
use scrappy_os.Security.Approvals.Edges.{is_settled, row_after-settled}

abbrev pub is_ok : {A : Type 0} → Result A → Bool
is_ok (ok a) = true
is_ok (err e) = false

-- The call spends the approval `id`, with success.
abbrev pub spends : String → Op → Gate → Bool
spends id (spending now i) g = (i == id) && is_ok (consume now i g).0
spends id _ g = false

abbrev pub as_count : Bool → ℕ
as_count b = if b then 1 else 0

-- How often a sequence of calls spends the approval `id`.
unfoldable pub spend_count : String → List Op → Gate → ℕ
spend_count id [] g = 0
spend_count id (op ∷ ops) g = as_count (spends id op g) + spend_count id ops (step op g)

-- What spending asks of the row that it finds.
abbrev pub IsSpendable : ℕ → Option ApprovalRow → Type 0
IsSpendable now o =
    (row : ApprovalRow) × (o ≡ some row)
    × (row.state ≡ approved)
    × (past_deadline row.expires_at now ≡ false)

consume_read-ok :
    (now : ℕ) (id : String) (g : Gate) (o : Option ApprovalRow)
    → is_ok (consume_read now id (read_row o) g).0 ≡ true
    → IsSpendable now o
unfolding consume_read row_to_request
consume_read-ok now id g none h = cc
consume_read-ok now id g (some row) h = (row, refl, ground arith, ground arith)

-- Spending succeeds exactly on an approved request before its deadline.
pub consume-ok_iff :
    (now : ℕ) (id : String) (g : Gate)
    → (is_ok (consume now id g).0 ≡ true) ↔ IsSpendable now (find_row id g.rows)
unfolding consume
consume-ok_iff now id g =
    (consume_read-ok now id g (find_row id g.rows), λ (row, e, s, d). rw e (ground arith))

consumed_after :
    (now : ℕ) (row : ApprovalRow)
    → row.state ≡ approved
    → past_deadline row.expires_at now ≡ false
    → (consume_row now row).state ≡ consumed
consumed_after now row s d = ground arith

spends_of_settled :
    (id : String) (op : Op) (g : Gate) (row : ApprovalRow)
    → find_row id g.rows ≡ some row
    → is_settled row.state ≡ true
    → spends id op g ≡ false
spends_of_settled id (spending now i) g row h s = elim (Bool-cases (spends id (spending now i) g)) [
  | inr other ↦ other
  | inl both ↦
      let (other, f, t, d) = (consume-ok_iff now i g).0 (ground arith) in
      let same : i ≡ id = (eq_iff i id).0 (ground arith) in
      let rows : some other ≡ some row = cc (same, f, h) in ground arith
]
spends_of_settled id (opening o i now call risk reason phrase) g row h s = refl
spends_of_settled id _ g row h s = refl

spend_count_of_settled :
    (id : String) (ops : List Op) (g : Gate) (row : ApprovalRow)
    → find_row id g.rows ≡ some row
    → is_settled row.state ≡ true
    → spend_count id ops g ≡ 0
unfolding spend_count
spend_count_of_settled id [] g row h s = refl
spend_count_of_settled id (op ∷ ops) g row h s =
    let later =
      spend_count_of_settled id ops (step op g) row
        (rw (row_after-settled op row s) at (find_row-step op g id row h)) s in
    rw (spends_of_settled id op g row h s) (omega (arith, later))

-- A call that spends an approval leaves its row settled.
spends-settles :
    (id : String) (op : Op) (g : Gate)
    → spends id op g ≡ true
    → (row : ApprovalRow) × (find_row id (step op g).rows ≡ some row)
      × (is_settled row.state ≡ true)
spends-settles id (spending now i) g h =
    let (row, e, s, d) = (consume-ok_iff now i g).0 (ground arith) in
    let same : i ≡ id = (eq_iff i id).0 (ground arith) in
    let found : find_row id g.rows ≡ some row = cc (e, same) in
    let own : (i == row.id) ≡ true =
      (eq_iff i row.id).1 (same ∙ sym (find_row-id id g.rows row found)) in
    (
      row_after (spending now i) row,
      find_row-step (spending now i) g id row found,
      rw own (ground (arith, consumed_after now row s d)),
    )
spends-settles id _ g h = cc

-- Whatever calls are made of the gate, in any order and by whomever, and from any state, one
-- approval is spent at most once, as long as each call is finished before the next starts. (Two
-- calls of `consume` that overlap may both succeed.)
pub spend_count-le_one : (id : String) (ops : List Op) (g : Gate) → spend_count id ops g ≤ 1
unfolding spend_count
spend_count-le_one id [] g = omega arith
spend_count-le_one id (op ∷ ops) g = elim (Bool-cases (spends id op g)) [
  | inr other ↦ rw other (omega (arith, spend_count-le_one id ops (step op g)))
  | inl spent ↦
      let (row, found, settled) = spends-settles id op g spent in
      rw spent (omega (arith, spend_count_of_settled id ops (step op g) row found settled))
]
