-- ===== src/Security/Approvals/Granted.antt =====
-- Where the grants of spent approvals come from.
use scrappy_os.Security.Approvals.Rows.{find_row-id}
use scrappy_os.Core.Enums.{approved, consumed, destructive}
use scrappy_os.Prelude.{
  ◌⊎◌, ◌≡◌, ◌∷◌, ◌≢◌, true, false, ap, [], Bool-cases, none, refl, eq_iff, inr, inl, arith,
  Option-cases,
}
use scrappy_os.Security.Approvals.{
  ApprovalRow, Gate, find_row, confirmation_phrase, text_eq?, Option, ApprovalState, String, List,
  Bool, some, pending, past_deadline,
}
use scrappy_os.Security.Approvals.Trace.{
  Appears, Op, opening, answering, spending, lapsing, awaiting, giving_up, step, row_after,
  find_row-step, find_row-step_new,
}
use scrappy_os.Security.Approvals.Single.{spends, spend_count, consume-ok_iff}

-- The call answers the pending request `id` with a grant, before its deadline; the approval of a
-- destructive request comes with the exact confirmation phrase.
abbrev pub Grants : String → Op → Gate → Type 0
Grants id (answering now d) g =
    (row : ApprovalRow) × (find_row id g.rows ≡ some row)
    × (d.request_id ≡ id)
    × (d.approved ≡ true)
    × (row.state ≡ pending)
    × (past_deadline row.expires_at now ≡ false)
    × (row.risk ≡ destructive → d.confirmation_phrase ≡ some confirmation_phrase)
Grants id _ g = ⊥

-- Some call of the sequence grants the request.
abbrev pub WasGranted : String → List Op → Gate → Type 0
WasGranted id [] g = ⊥
WasGranted id (op ∷ ops) g = Grants id op g ⊎ WasGranted id ops (step op g)

abbrev pub is_granted : ApprovalState → Bool
is_granted approved = true
is_granted consumed = true
is_granted _ = false

-- The request is not there, or neither approved nor spent.
abbrev pub IsUngranted : Option ApprovalRow → Type 0
IsUngranted none = Unit
IsUngranted (some row) = is_granted row.state ≡ false

phrase_given :
    (a : Option String)
    → text_eq? a (some confirmation_phrase) ≡ true
    → a ≡ some confirmation_phrase
phrase_given none h = cc
phrase_given (some t) h = ap some ((eq_iff t confirmation_phrase).0 h)

row_granted :
    (id : String) (op : Op) (g : Gate) (row : ApprovalRow)
    → find_row id g.rows ≡ some row
    → is_granted row.state ≡ false
    → (is_granted (row_after op row).state ≡ false) ⊎ Grants id op g
row_granted id (answering now d) g row h u =
    elim (Bool-cases (is_granted (row_after (answering now d) row).state)) [
      | inr still ↦ inl still
      | inl now_granted ↦ inr (
        row,
        h,
        ground (arith, eq_iff d.request_id row.id, find_row-id id g.rows row h),
        ground arith,
        ground arith,
        ground arith,
        λ e. phrase_given d.confirmation_phrase (ground arith),
      )
    ]
row_granted id (opening o i now call risk reason phrase) g row h u = inl u
row_granted id (spending now i) g row h u = inl (ground arith)
row_granted id (lapsing i) g row h u = inl (ground arith)
row_granted id (awaiting now i) g row h u = inl u
row_granted id (giving_up now i note) g row h u = inl (ground arith)

step_granted :
    (id : String) (op : Op) (g : Gate)
    → IsUngranted (find_row id g.rows)
    → IsUngranted (find_row id (step op g).rows) ⊎ Grants id op g
step_granted id op g u = elim (Option-cases (find_row id g.rows)) [
  | inl absent ↦ elim (find_row-step_new op g id absent) [
    | Appears.absent still ↦ inl (rw still tt)
    | Appears.opened row e p ↦ inl (rw e (ground arith))
  ]
  | inr (row, e) ↦ elim (row_granted id op g row e (rw e at u)) [
    | inl still ↦ inl (rw (find_row-step op g id row e) still)
    | inr granted ↦ inr granted
  ]
]

row_ungranted :
    (o : Option ApprovalRow) (row : ApprovalRow)
    → IsUngranted o
    → o ≡ some row
    → is_granted row.state ≡ false
row_ungranted none row u e = cc
row_ungranted (some other) row u e = ground arith

not_spent :
    (id : String) (op : Op) (g : Gate) → IsUngranted (find_row id g.rows) → spends id op g ≡ false
not_spent id (spending now i) g u = elim (Bool-cases (spends id (spending now i) g)) [
  | inr other ↦ other
  | inl both ↦
      let (row, e, s, d) = (consume-ok_iff now i g).0 (ground arith) in
      let same : i ≡ id = (eq_iff i id).0 (ground arith) in
      let found : find_row id g.rows ≡ some row = cc (e, same) in
      let never : is_granted row.state ≡ false = row_ungranted (find_row id g.rows) row u found in
      ground arith
]
not_spent id (opening o i now call risk reason phrase) g u = refl
not_spent id _ g u = refl

-- An approval that was spent had been granted: if the request was not approved at the start, then
-- some earlier call answered it, while it was pending and before its deadline, with a grant, and
-- with the exact confirmation phrase if it was destructive.
pub spend-needs_grant :
    (id : String) (ops : List Op) (g : Gate)
    → IsUngranted (find_row id g.rows)
    → spend_count id ops g ≢ 0
    → WasGranted id ops g
unfolding spend_count
spend-needs_grant id [] g u n = absurd (n refl)
spend-needs_grant id (op ∷ ops) g u n = elim (step_granted id op g u) [
  | inr granted ↦ inl granted
  | inl still ↦ inr (
      spend-needs_grant id ops (step op g) still
        (λ none_later. n (rw (not_spent id op g u) (omega arith))))
]
