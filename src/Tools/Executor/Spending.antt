-- ===== src/Tools/Executor/Spending.antt =====
-- What the steps of `execute` behind the verdict do to the runs, and what they ask of an approval.
use Prim.Native.String
use scrappy_os.Prelude.{
  ℕ, String, ◌≡◌, ◌⊎◌, inl, inr, refl, true, false, Option, none, some, [], ◌∷◌, ◌++◌, arith,
  Bool-cases, ◌∙◌,
}
use scrappy_os.Core.Enums.{expired, denied}
use scrappy_os.Core.Calls.{ToolCall, ApprovalRequest, ApprovalDecision}
use scrappy_os.Security.Approvals.{Gate, Result, ok, err}
use scrappy_os.Security.Approvals
use scrappy_os.Security.Approvals.Single.{is_ok}
use scrappy_os.Security.Policy.{PolicyVerdict}
use scrappy_os.Tools.Registry.{Tool, finished, timed_out, raised, crashed}
use scrappy_os.Tools.Executor.{
  World, Occasion, fail_with, conclude_run, run_tool, spend, resolved, asked, JsonFields, Ran,
  Prompt, spent_call, pending_call, started_world, spent_world, decline, outcome, invalid_result,
  store_error, broken_classification, Execution, if_stored, Bool,
}

-- A write that is carried out or not keeps what the world and the rest of the execution keep.
pub if_stored-keeps :
    (P : World → Type 0) (b : Bool) (w : World) (rest : Execution × World)
    → P w
    → P rest.1
    → P (if_stored b w rest).1
unfolding if_stored
if_stored-keeps P false w rest h k = h
if_stored-keeps P true w rest h k = k

pub runs-fail_with :
    (at : Occasion) (call : ToolCall) (message : String) (n : ℕ) (v : PolicyVerdict)
    (approval : Option ApprovalRequest) (w : World)
    → ((fail_with at call message n v approval w).1.runs ≡ w.runs)
      × ((fail_with at call message n v approval w).1.gate.rows ≡ w.gate.rows)
unfolding fail_with
runs-fail_with at call message n v approval w = ground arith

rows-conclude_run :
    (at : Occasion) (call : ToolCall) (v : PolicyVerdict) (approval : Option ApprovalRequest)
    (r : Ran) (w : World)
    → ((conclude_run at call v approval r w).1.runs ≡ w.runs)
      × ((conclude_run at call v approval r w).1.gate.rows ≡ w.gate.rows)
unfolding conclude_run
rows-conclude_run at call v approval (finished output) w =
    if_stored-keeps (λ u. (u.runs ≡ w.runs) × (u.gate.rows ≡ w.gate.rows)) (at.is_stored _) w _
      (refl, refl) (refl, refl)
rows-conclude_run at call v approval timed_out w = runs-fail_with at _ _ _ _ _ _
rows-conclude_run at call v approval (raised message) w = runs-fail_with at _ _ _ _ _ _
rows-conclude_run at call v approval (crashed kind message) w = runs-fail_with at _ _ _ _ _ _

pub runs-run_tool :
    (at : Occasion) (call : ToolCall) (tool : Tool) (args : JsonFields) (v : PolicyVerdict)
    (approval : Option ApprovalRequest) (w : World)
    → ((run_tool at call tool args v approval w).1.runs ≡ w.runs ++ (tool.name, args) ∷ [])
      × ((run_tool at call tool args v approval w).1.gate.rows ≡ w.gate.rows)
unfolding run_tool
runs-run_tool at call tool args v approval w =
    rows-conclude_run at call v approval (tool.run args) (started_world call tool args w)

-- The approval `id` was spent on the gate `g`: the table is as that left it.
abbrev pub WasSpent : Occasion → String → Gate → World → Type 0
WasSpent at id g w =
    (is_ok (Approvals.consume at.spent_at id g).0 ≡ true)
    × (w.gate.rows ≡ (Approvals.consume at.spent_at id g).1.rows)

-- The answer `d` was a grant, it resolved an approval, and that approval was spent next.
abbrev pub WasGrantedBy : Occasion → ApprovalDecision → Gate → World → Type 0
WasGrantedBy at d g w =
    (d.approved ≡ true)
    × ((approval : ApprovalRequest) × (g' : Gate) × (Approvals.resolve at.answered_at d g
          ≡ (ok approval, g'))
        × WasSpent at approval.id g' w)

-- The request was opened, the prompt was shown it, and answered with such a grant.
abbrev pub WasAsked : Option Prompt → Occasion → Result ApprovalRequest × Gate → World → Type 0
WasAsked p at opened w =
    (prompt : Prompt) × (ask : ApprovalRequest) × (g : Gate) × (p ≡ some prompt)
    × (opened ≡ (ok ask, g))
    × WasGrantedBy at (prompt ask g).0 (prompt ask g).1 w

-- What one execution may do to the runs: nothing, or one run under a condition on the world that it
-- leaves.
abbrev pub MayRun : Tool → JsonFields → (World → Type 0) → World → World → Type 0
MayRun tool args If w w' =
    (w'.runs ≡ w.runs) ⊎ ((w'.runs ≡ w.runs ++ (tool.name, args) ∷ []) × If w')

MayRun-at :
    (tool : Tool) (args : JsonFields) (If : World → Type 0) (w : World) (x y : Execution × World)
    → x ≡ y
    → MayRun tool args If w y.1
    → MayRun tool args If w x.1
MayRun-at tool args If w x y e h = rw e h

module _ (at : Occasion) (tool : Tool) (args : JsonFields) (v : PolicyVerdict) (w : World) where
  spend-runs :
      (call : ToolCall) (approval : ApprovalRequest) (id : String) (g : Gate)
      (r : Result ApprovalRequest × Gate)
      → Approvals.consume at.spent_at id g ≡ r
      → MayRun tool args (WasSpent at id g) w (spend at call tool args v approval r w).1
  unfolding spend
  spend-runs call approval id g (err e, g') p =
      inl (runs-fail_with at call _ 0 v (some approval) (record w { gate = g' })).0
  spend-runs call approval id g (ok a, g') p =
      let (ran, rows) =
        runs-run_tool at (spent_call call) tool args v (some approval)
          (spent_world (spent_call call) approval.id g' w) in
      inr (ran, (rw p refl, rows ∙ rw p refl))

  resolved-granted :
      (call : ToolCall) (ask : ApprovalRequest) (d : ApprovalDecision) (approval : ApprovalRequest)
      (g : Gate)
      → d.approved ≡ true
      → resolved at call tool args v ask d (ok approval, g) w
        ≡ spend at call tool args v approval (Approvals.consume at.spent_at approval.id g) w
  unfolding resolved
  resolved-granted call ask d approval g granted = rw granted refl

  runs-decline : (call : ToolCall) (x : Execution × World) → (decline call x).1.runs ≡ x.1.runs
  unfolding decline
  runs-decline call (outcome o, w') = refl
  runs-decline call (invalid_result, w') = refl
  runs-decline call (store_error, w') = refl
  runs-decline call (broken_classification, w') = refl

  resolved-declined :
      (call : ToolCall) (ask : ApprovalRequest) (d : ApprovalDecision) (approval : ApprovalRequest)
      (g : Gate)
      → d.approved ≡ false
      → (resolved at call tool args v ask d (ok approval, g) w).1.runs ≡ w.runs
  unfolding resolved
  resolved-declined call ask d approval g declined =
      let refused = record call { approval_state = some denied } in
      let message = String.◌++◌ "Operator declined " call.tool_name in
      let w' = record w { gate = g } in
      rw declined (
        runs-decline refused (fail_with at refused message 0 v (some approval) w')
        ∙ (runs-fail_with at refused message 0 v (some approval) w').0)

  resolved-runs :
      (call : ToolCall) (ask : ApprovalRequest) (d : ApprovalDecision) (g : Gate)
      (r : Result ApprovalRequest × Gate)
      → Approvals.resolve at.answered_at d g ≡ r
      → MayRun tool args (WasGrantedBy at d g) w (resolved at call tool args v ask d r w).1
  unfolding resolved
  resolved-runs call ask d g (err e, g') p =
      inl
        (runs-fail_with at (record call { approval_state = some expired }) _ 0 v (some ask)
          (record w { gate = g' })).0
  resolved-runs call ask d g (ok approval, g') p = elim (Bool-cases d.approved) [
    | inl granted ↦
        MayRun-at tool args (WasGrantedBy at d g) w
          (resolved at call tool args v ask d (ok approval, g') w)
          (spend at call tool args v approval (Approvals.consume at.spent_at approval.id g') w)
          (resolved-granted call ask d approval g' granted)
          (elim (spend-runs call approval approval.id g'
            (Approvals.consume at.spent_at approval.id g') refl) [
              | inl same ↦ inl same
              | inr (ran, spent) ↦ inr (ran, (granted, (approval, g', p, spent)))
            ])
    | inr declined ↦ inl (resolved-declined call ask d approval g' declined)
  ]

  pub asked-runs :
      (p : Option Prompt) (call : ToolCall) (r : Result ApprovalRequest × Gate)
      → MayRun tool args (WasAsked p at r) w (asked p at call tool args v r w).1
  unfolding asked
  asked-runs p call (err e, g) = inl refl
  asked-runs none call (ok r, g) =
      inl (runs-fail_with at (pending_call call r) _ 0 v (some r) (record w { gate = g })).0
  asked-runs (some prompt) call (ok r, g) =
      let (d, g') = prompt r g in
      elim (resolved-runs (pending_call call r) r (prompt r g).0 (prompt r g).1
        (Approvals.resolve at.answered_at (prompt r g).0 (prompt r g).1) refl) [
          | inl same ↦ inl same
          | inr (ran, granted) ↦ inr (ran, (prompt, r, g, refl, refl, granted))
        ]
