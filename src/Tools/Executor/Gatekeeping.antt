-- ===== src/Tools/Executor/Gatekeeping.antt =====
-- What must have held when `execute` ran a tool.
use scrappy_os.Prelude.{
  String, ◌≡◌, ◌⊎◌, inl, inr, refl, true, false, Option, none, some, [], ◌∷◌, ◌++◌, arith,
  Bool-cases,
}
use scrappy_os.Core.Enums.{deny, destructive}
use scrappy_os.Core.Calls.{ToolCall, ApprovalRequest}
use scrappy_os.Security.Approvals.{Gate, Result, ok, err}
use scrappy_os.Security.Approvals
use scrappy_os.Security.Policy.{PolicyVerdict, is_denied, needs_approval, verdict}
use scrappy_os.Tools.Registry.{
  Tool, get_tool, valid, invalid, Classified, classified, unclassified, broken,
}
use scrappy_os.Tools.Executor.{
  World, ToolExecutor, Occasion, refuse, asked, dispatch, decide, validated, found, execute,
  verdict_on, JsonFields, Parsed, decided_call, effective_risk, decided_world, record_call,
  Execution, unless_broken, if_stored, insert_call, fail_with,
}
use scrappy_os.Tools.Executor.Spending.{
  if_stored-keeps, runs-fail_with, runs-run_tool, asked-runs, WasAsked,
}

-- The request that a verdict on a call opens.
abbrev pub opened_for :
    ToolExecutor
    → Occasion
    → ToolCall
    → String
    → PolicyVerdict
    → World
    → Result ApprovalRequest × Gate
opened_for x at call reason v w =
    Approvals.request x.opening at.approval_id at.asked_at call call.risk_level reason
      v.requires_confirmation_phrase w.gate

-- The gate let one run of `tool` on `args` through: by the policy alone, or by an approval that was
-- asked for, granted and spent for it.
abbrev pub IsPermitted :
    ToolExecutor → Occasion → ToolCall → Tool → JsonFields → World → World → Type 0
IsPermitted x at call tool args w w' =
    (w'.runs ≡ w.runs ++ (tool.name, args) ∷ [])
    × (is_denied (verdict_on x at call tool args) ≡ false)
    × (let v = verdict_on x at call tool args in
        let call' = decided_call call (effective_risk tool args) v in
        needs_approval v ≡ true
        → WasAsked x.prompt at
            (opened_for x at call' (x.explain call' v) v (decided_world x call' v w)) w')

abbrev DispatchRuns :
    ToolExecutor
    → Occasion
    → ToolCall
    → Tool
    → JsonFields
    → String
    → PolicyVerdict
    → World
    → World
    → Type 0
DispatchRuns x at call tool args reason v w w' =
    (w'.runs ≡ w.runs)
    ⊎ ((w'.runs ≡ w.runs ++ (tool.name, args) ∷ [])
        × (is_denied v ≡ false)
        × (needs_approval v ≡ true → WasAsked x.prompt at (opened_for x at call reason v w) w'))

module _ (x : ToolExecutor) (at : Occasion) (call : ToolCall) (tool : Tool) (args : JsonFields)
    (reason : String) (v : PolicyVerdict) (w : World) where
  DispatchRuns-at :
      (a b : Execution × World)
      → a ≡ b
      → DispatchRuns x at call tool args reason v w b.1
      → DispatchRuns x at call tool args reason v w a.1
  DispatchRuns-at a b e h = rw e h

  dispatch-asks :
      is_denied v ≡ false
      → needs_approval v ≡ true
      → dispatch x at call tool args reason v w
        ≡ asked x.prompt at call tool args v (opened_for x at call reason v w) w
  unfolding dispatch
  dispatch-asks passes asks = rw passes (rw asks refl)

runs-refuse :
    (x : ToolExecutor) (at : Occasion) (call : ToolCall) (v : PolicyVerdict) (w : World)
    → (refuse x at call v w).1.runs ≡ w.runs
unfolding refuse
runs-refuse x at call v w =
    if_stored-keeps (λ u. u.runs ≡ w.runs) (at.is_stored _) w _ refl
      (if_stored-keeps (λ u. u.runs ≡ w.runs) (at.is_stored _) _ _ refl refl)

dispatch-runs :
    (x : ToolExecutor) (at : Occasion) (call : ToolCall) (tool : Tool) (args : JsonFields)
    (reason : String) (v : PolicyVerdict) (w : World)
    → DispatchRuns x at call tool args reason v w (dispatch x at call tool args reason v w).1
unfolding dispatch
dispatch-runs x at call tool args reason v w = elim (Bool-cases (is_denied v)) [
  | inl out ↦ rw out (inl (runs-refuse x at call v w))
  | inr passes ↦ elim (Bool-cases (needs_approval v)) [
    | inl asks ↦
        let opened = opened_for x at call reason v w in
        let answer = asked-runs at tool args v w x.prompt call opened in
        DispatchRuns-at x at call tool args reason v w (dispatch x at call tool args reason v w)
          (asked x.prompt at call tool args v opened w)
          (dispatch-asks x at call tool args reason v w passes asks)
          (elim answer [ inl same ↦ inl same | inr (ran, spent) ↦ inr (ran, passes, λ _. spent) ])
    | inr free ↦
        let (ran, _) = runs-run_tool at call tool args v none w in
        rw passes (rw free (inr (ran, refl, λ bad. ground arith)))
  ]
]

-- What an execution of `call` may do to the runs.
abbrev pub OnlyPermitted : ToolExecutor → Occasion → ToolCall → World → World → Type 0
OnlyPermitted x at call w w' =
    (w'.runs ≡ w.runs)
    ⊎ ((tool : Tool) × (args : JsonFields) × (get_tool call.tool_name x.registry ≡ some tool)
        × (tool.parse_arguments call.arguments ≡ valid args)
        × IsPermitted x at call tool args w w')

unless_broken-keeps :
    (P : World → Type 0) (c : Classified) (w : World) (rest : Execution × World)
    → P w
    → P rest.1
    → P (unless_broken c w rest).1
unfolding unless_broken
unless_broken-keeps P (classified risk reason) w rest h k = k
unless_broken-keeps P (unclassified message) w rest h k = k
unless_broken-keeps P broken w rest h k = h

validated-runs :
    (x : ToolExecutor) (at : Occasion) (call : ToolCall) (tool : Tool) (w : World)
    → get_tool call.tool_name x.registry ≡ some tool
    → (parsed : Parsed) → tool.parse_arguments call.arguments ≡ parsed
    → OnlyPermitted x at call w (validated x at call tool parsed w).1
unfolding validated decide
validated-runs x at call tool w p (valid args) q =
    let v = verdict_on x at call tool args in
    let call' = decided_call call (effective_risk tool args) v in
    let rest = dispatch x at call' tool args (x.explain call' v) v (decided_world x call' v w) in
    let P : World → Type 0 = OnlyPermitted x at call w in
    unless_broken-keeps P (tool.classify args) w (if_stored (at.is_stored insert_call) w rest)
      (inl refl)
      (if_stored-keeps P (at.is_stored insert_call) w rest (inl refl)
        (elim (dispatch-runs x at call' tool args (x.explain call' v) v
          (decided_world x call' v w)) [
            | inl same ↦ inl same
            | inr ran ↦ inr (tool, args, p, q, ran)
          ]))
validated-runs x at call tool w p (invalid message) q =
    let call' = record call { risk_level = tool.risk } in
    let w' = record w { ledger = record_call x.opening.redact call' w.ledger } in
    let v = verdict deny tool.risk "invalid-arguments" in
    inl (
      if_stored-keeps (λ u. u.runs ≡ w.runs) (at.is_stored insert_call) w
        (fail_with at call' message 0 v none w') refl
        (runs-fail_with at call' message 0 v none w').0)

found-runs :
    (x : ToolExecutor) (at : Occasion) (call : ToolCall) (w : World) (t : Option Tool)
    → get_tool call.tool_name x.registry ≡ t
    → OnlyPermitted x at call w (found x at call t w).1
unfolding found
found-runs x at call w none p =
    inl (runs-refuse x at call (verdict deny destructive "unknown-tool") w)
found-runs x at call w (some tool) p =
    validated-runs x at call tool w p (tool.parse_arguments call.arguments) refl

-- An execution runs no tool, or runs exactly one, once: the registered tool that the call names, on
-- arguments that its schema accepted, when the policy did not deny the classified call, and, when
-- the verdict asks for approval, after a request for this call was opened, the prompt answered it
-- with a grant, that grant resolved an approval in time, and this approval was spent.
pub execute-runs :
    (x : ToolExecutor) (at : Occasion) (call : ToolCall) (w : World)
    → OnlyPermitted x at call w (execute x at call w).1
unfolding execute
execute-runs x at call w = found-runs x at call w (get_tool call.tool_name x.registry) refl
