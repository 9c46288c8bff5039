-- ===== src/Security/Approvals/Rows.antt =====
-- What each operation does to the row of any one id: the operations act row by row.
use mathlib.Core.Option.{Option}
use mathlib.Core.Option
use scrappy_os.Prelude.{
  ℕ, String, ◌≡◌, refl, not, ◌&&◌, none, some, List, [], ◌∷◌, ◌++◌, arith, eq_iff, ◌==◌,
  if◌then◌else◌, Option-cases, inl, inr, Bool,
}
use scrappy_os.Core.Enums.{expired, consumed, RiskLevel}
use scrappy_os.Core.Calls.{ApprovalDecision, past_deadline, ToolCall}
use scrappy_os.Security.Approvals.{
  ApprovalRow, Gate, find_row, update_row, is_destructive, is_pending, is_approved, text_eq?,
  confirmation_phrase, decide_row, verdict_of, resolve, consume, expire, wait_timeout, wait_for,
  request, Opening, request_to_row, open_request,
}

pub find_row-id :
    (id : String) (rows : List ApprovalRow) (row : ApprovalRow)
    → find_row id rows ≡ some row
    → row.id ≡ id
unfolding find_row
find_row-id id [] row h = cc
find_row-id id (r ∷ rows) row h = ground (arith, eq_iff r.id id, find_row-id id rows row)

pub find_row-update :
    (id j : String) (change : ApprovalRow → ApprovalRow)
    → ((row : ApprovalRow) → (change row).id ≡ row.id)
    → (rows : List ApprovalRow)
    → find_row j (update_row id change rows)
      ≡ (if id == j then Option.map change (find_row j rows) else find_row j rows)
unfolding find_row update_row
find_row-update id j change keep [] = ground arith
find_row-update id j change keep (r ∷ rows) = ground (
  arith,
  keep r,
  find_row-update id j change keep rows,
  eq_iff r.id id,
  eq_iff r.id j,
  eq_iff id j,
)

pub find_row-append :
    (j : String) (rows : List ApprovalRow) (row : ApprovalRow)
    → find_row j (rows ++ row ∷ [])
      ≡ elim (find_row j rows) [ some r ↦ some r | none ↦ if row.id == j then some row else none ]
unfolding find_row
find_row-append j [] row = ground arith
find_row-append j (r ∷ rows) row = ground (arith, find_row-append j rows row)

-- What a decision does to the row that it is about.
abbrev pub resolve_row : ℕ → ApprovalDecision → ApprovalRow → ApprovalRow
resolve_row now d row =
    if not (is_pending row.state)
    then row
    else if past_deadline row.expires_at now
    then decide_row expired d (some "expired before decision") row
    else if d.approved
        && is_destructive row.risk
        && not (text_eq? d.confirmation_phrase (some confirmation_phrase))
    then row
    else decide_row (verdict_of d.approved) d d.note row

abbrev pub consume_row : ℕ → ApprovalRow → ApprovalRow
consume_row now row =
    if not (is_approved row.state)
    then row
    else if past_deadline row.expires_at now
    then record row { state = expired }
    else record row { state = consumed }

abbrev pub expire_row : ApprovalRow → ApprovalRow
expire_row row = if is_pending row.state then record row { state = expired } else row

pub find_row-resolve :
    (now : ℕ) (d : ApprovalDecision) (g : Gate) (j : String)
    → find_row j (resolve now d g).1.rows ≡ (
        if d.request_id == j
        then Option.map (resolve_row now d) (find_row j g.rows)
        else find_row j g.rows)
unfolding resolve
find_row-resolve now d g j = elim (Option-cases (find_row d.request_id g.rows)) [
  | inl e ↦ rw e (ground (arith, eq_iff d.request_id j))
  | inr (row, e) ↦ rw e (
      ground (
        arith,
        eq_iff d.request_id j,
        find_row-id d.request_id g.rows row e,
        find_row-update row.id j (decide_row expired d (some "expired before decision")) (λ r. refl)
            g.rows,
        find_row-update row.id j (decide_row (verdict_of d.approved) d d.note) (λ r. refl) g.rows,
      ))
]

pub find_row-consume :
    (now : ℕ) (id : String) (g : Gate) (j : String)
    → find_row j (consume now id g).1.rows
      ≡ (if id == j then Option.map (consume_row now) (find_row j g.rows) else find_row j g.rows)
unfolding consume
find_row-consume now id g j = elim (Option-cases (find_row id g.rows)) [
  | inl e ↦ rw e (ground (arith, eq_iff id j))
  | inr (row, e) ↦ rw e (
      ground (
        arith,
        eq_iff id j,
        find_row-update id j (λ r. record r { state = expired }) (λ r. refl) g.rows,
        find_row-update id j (λ r. record r { state = consumed }) (λ r. refl) g.rows,
      ))
]

pub find_row-expire :
    (id : String) (g : Gate) (j : String)
    → find_row j (expire id g).rows
      ≡ (if id == j then Option.map expire_row (find_row j g.rows) else find_row j g.rows)
unfolding expire
find_row-expire id g j = find_row-update id j expire_row (λ row. ground arith) g.rows

-- A request adds its row if the id is new, and nothing otherwise.
abbrev pub rows_with : Option ApprovalRow → ApprovalRow → List ApprovalRow → List ApprovalRow
rows_with none row rows = rows ++ row ∷ []
rows_with (some _) row rows = rows

pub rows-request :
    (o : Opening) (id : String) (now : ℕ) (call : ToolCall) (risk : RiskLevel) (reason : String)
    (phrase : Bool) (g : Gate)
    → (request o id now call risk reason phrase g).1.rows
      ≡ rows_with
          (find_row id g.rows)
          (request_to_row o.reload (open_request o id now call risk reason phrase))
          g.rows
unfolding request
rows-request o id now call risk reason phrase g = elim (Option-cases (find_row id g.rows)) [
  | inl e ↦ rw e refl
  | inr (row, e) ↦ rw e refl
]

pub rows-wait_for : (now : ℕ) (id : String) (g : Gate) → (wait_for now id g).1.rows ≡ g.rows
unfolding wait_for
rows-wait_for now id g = ground (arith, Option-cases (find_row id g.rows))

pub rows-wait_timeout :
    (now : ℕ) (id note : String) (g : Gate)
    → (wait_timeout now id note g).1.rows ≡ (expire id g).rows
unfolding wait_timeout
rows-wait_timeout now id note g = refl
