-- ===== src/Memory/Working/Streak.antt =====
-- What a task's memory holds after a sequence of observations.
use scrappy_os.Prelude.{
  ℕ, suc, ◌≡◌, ◌+◌, refl, ap, ◌∙◌, sym, Bool, true, not, List, [], ◌∷◌, ◌++◌, length, all, arith,
  if◌then◌else◌,
}
use scrappy_os.Prelude.Deque.{
  append_bounded, recent, drop-none, append-none, append_assoc, append_bounded-recent,
}
use scrappy_os.Memory.Working.{Observation, WorkingMemory, max_observations, note}

unfoldable pub note_all : List Observation → WorkingMemory → WorkingMemory
note_all [] m = m
note_all (o ∷ os) m = note_all os (note o m)

abbrev pub is_failure : Observation → Bool
is_failure o = not o.success

-- How many observations at the end of a sequence are failures.
unfoldable pub trailing_failures : List Observation → ℕ
trailing_failures [] = 0
trailing_failures (o ∷ os) =
    let rest = trailing_failures os in if all is_failure (o ∷ os) then suc (length os) else rest

trailing_failures-all :
    (os : List Observation) → all is_failure os ≡ true → trailing_failures os ≡ length os
unfolding trailing_failures
trailing_failures-all [] e = refl
trailing_failures-all (o ∷ os) e = ground arith

note_all-failures :
    (os : List Observation) (m : WorkingMemory)
    → (note_all os m).consecutive_failures
      ≡ (if all is_failure os then m.consecutive_failures + length os else trailing_failures os)
unfolding note_all note trailing_failures
note_all-failures [] m = omega arith
note_all-failures (o ∷ os) m =
    let ih = note_all-failures os (note o m) in let full = trailing_failures-all os in ground arith

note_all-recent :
    (os seen : List Observation) (m : WorkingMemory)
    → m.observations ≡ recent max_observations seen
    → (note_all os m).observations ≡ recent max_observations (seen ++ os)
unfolding note_all note
note_all-recent [] seen m e = e ∙ ap (recent max_observations) (sym (append-none seen))
note_all-recent (o ∷ os) seen m e =
    let next : append_bounded max_observations o m.observations
        ≡ recent max_observations (seen ++ o ∷ []) =
      ap (append_bounded max_observations o) e ∙ append_bounded-recent max_observations seen o in
    note_all-recent os (seen ++ o ∷ []) (note o m) next
    ∙ ap (recent max_observations) (append_assoc seen (o ∷ []) os)

-- Whatever is noted in a fresh memory, it holds the last fifty observations, in order, and its
-- counter is the number of failures that the whole sequence ends in.
pub note_all_lem :
    (os : List Observation) (m : WorkingMemory)
    → m.observations ≡ []
    → m.consecutive_failures ≡ 0
    → ((note_all os m).observations ≡ recent max_observations os)
      × ((note_all os m).consecutive_failures ≡ trailing_failures os)
note_all_lem os m e z = (
  note_all-recent os [] m (e ∙ sym (drop-none _)),
  (let f = note_all-failures os m in let g = trailing_failures-all os in ground arith),
)
