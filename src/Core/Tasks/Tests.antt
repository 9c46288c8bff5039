-- ===== src/Core/Tasks/Tests.antt =====
-- Runs of the task transitions, and the theorems at concrete inputs.
use scrappy_os.Prelude.{Any, ◌≡◌, ◌∷◌, refl}
use scrappy_os.Core.Enums.{planning, executing, verifying, completed, read, TaskState}
use scrappy_os.Core.Tasks.{Objective, Task, new_task, transition_to, none, List, ℕ, false, some, []}
use scrappy_os.Core.Tasks.Lifecycle.{
  Reach, Reach-of_terminal, Reach-IsDated, IsDated, run_moves, run_moves-needs_planning, Step,
}

abbrev objective : Objective
objective = record {
  id = "o1";
  text = "check the disk";
  actor = "cli";
  identity = none;
  created_at = 1;
  max_risk = read;
  dry_run = false;
}

abbrev start : Task
start = new_task "t1" objective 1

abbrev moves : List (ℕ × TaskState)
moves = (2, planning) ∷ (3, executing) ∷ (4, completed) ∷ (5, verifying) ∷ (6, completed) ∷ []

-- Completing straight from executing is refused, and skipped.
life :
    let t = run_moves moves start in
    (t.state ≡ completed) × (t.finished_at ≡ some 6) × (t.updated_at ≡ 6)
unfolding run_moves new_task transition_to
life = (refl, refl, refl)

abbrev ended : Task
ended = run_moves moves start

Reach-of_terminal_case : ended ≡ ended
unfolding run_moves new_task transition_to
Reach-of_terminal_case =
    Reach-of_terminal {t = ended} refl (Reach.next Reach.here (Step.move 7 completed refl))

Reach-IsDated_example : IsDated start
Reach-IsDated_example = Reach-IsDated "t1" objective 1 Reach.here

run_moves-needs_planning_example : Any (λ (m : ℕ × TaskState). m.1 ≡ planning) moves
run_moves-needs_planning_example =
    run_moves-needs_planning "t1" objective 1 moves
      (unfold run_moves new_task transition_to in refl)
