-- ===== src/Core/Tasks/Lifecycle.antt =====
-- The life of a task under any series of transitions.
use scrappy_os.Prelude.{
  List, [], ◌∷◌, ◌≡◌, refl, ◌↔◌, ◌⊎◌, some, none, arith, true, false, Bool, ℕ, ◌∙◌, Any, inl, inr,
}
use scrappy_os.Core.Enums.{TaskState, is_terminal, created, planning, failed, cancelled}
use scrappy_os.Core.Tasks.{Task, transition_to, new_task, String, Objective, List}

-- One transition that was not refused.
pub data Step : Task → Task → Type 0 where
  move :
      {t u : Task} (now : ℕ) (target : TaskState) → transition_to now target t ≡ some u → Step t u

pub data Reach (t : Task) : Task → Type 0 where
  here : Reach t t
  next : {u v : Task} → Reach t u → Step u v → Reach t v

transition_to_of_terminal :
    (now : ℕ) (target : TaskState) (t : Task) {u : Task}
    → is_terminal t.state ≡ true
    → transition_to now target t ≡ some u
    → u ≡ t
unfolding transition_to
transition_to_of_terminal now target t done h = ground arith

-- A task that has ended stays as it is, whatever transitions are asked of it.
pub Reach-of_terminal : {t u : Task} → is_terminal t.state ≡ true → Reach t u → u ≡ t
Reach-of_terminal done here = refl
Reach-of_terminal done (next r (move now target h)) =
    let stayed = Reach-of_terminal done r in
    transition_to_of_terminal now target _ (rw stayed done) h ∙ stayed

-- The time of the end is recorded exactly for the tasks that have ended.
abbrev pub IsDated : Task → Type 0
IsDated t = (t.finished_at ≡ none) ↔ (is_terminal t.state ≡ false)

transition_to-IsDated :
    (now : ℕ) (target : TaskState) (t : Task) {u : Task}
    → transition_to now target t ≡ some u
    → IsDated t
    → IsDated u
unfolding transition_to
transition_to-IsDated now target t h d = ground arith

-- From its creation on, a task has a time of its end exactly when it is in a terminal state,
-- whatever transitions it has made.
pub Reach-IsDated :
    (id : String) (o : Objective) (now : ℕ) {u : Task} → Reach (new_task id o now) u → IsDated u
Reach-IsDated id o now here = unfold new_task in (λ _. refl, λ _. refl)
Reach-IsDated id o now (next r (move at target h)) =
    transition_to-IsDated at target _ h (Reach-IsDated id o now r)

-- A transition, skipped if it is refused.
abbrev pub try_move : ℕ → TaskState → Task → Task
try_move now target t = elim (transition_to now target t) [ none ↦ t | some u ↦ u ]

-- Any series of transitions.
unfoldable pub run_moves : List (ℕ × TaskState) → Task → Task
run_moves [] t = t
run_moves ((now, target) ∷ moves) t = run_moves moves (try_move now target t)

-- The states that need no plan.
abbrev pub is_unplanned : TaskState → Bool
is_unplanned created = true
is_unplanned failed = true
is_unplanned cancelled = true
is_unplanned _ = false

move_unplanned :
    (now : ℕ) (target : TaskState) (t : Task)
    → is_unplanned t.state ≡ true
    → (target ≡ planning) ⊎ (is_unplanned (try_move now target t).state ≡ true)
unfolding transition_to
move_unplanned now target t h = ground arith

run_moves-planned :
    (moves : List (ℕ × TaskState)) (t : Task)
    → is_unplanned t.state ≡ true
    → is_unplanned (run_moves moves t).state ≡ false
    → Any (λ m. m.1 ≡ planning) moves
unfolding run_moves
run_moves-planned [] t h e = cc
run_moves-planned ((now, target) ∷ moves) t h e = elim (move_unplanned now target t h) [
  | inl planned ↦ inl planned
  | inr still ↦ inr (run_moves-planned moves _ still e)
]

-- A new task that has come, by any transitions, to execute, to verify, to wait, to roll back or to
-- complete, was moved to planning at some point.
pub run_moves-needs_planning :
    (id : String) (o : Objective) (start : ℕ) (moves : List (ℕ × TaskState))
    → is_unplanned (run_moves moves (new_task id o start)).state ≡ false
    → Any (λ m. m.1 ≡ planning) moves
run_moves-needs_planning id o start moves e =
    run_moves-planned moves (new_task id o start) (unfold new_task in refl) e
