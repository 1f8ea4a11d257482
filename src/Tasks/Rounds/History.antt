-- ===== src/Tasks/Rounds/History.antt =====
-- What each side of the machine of `Tasks.Switch` has called, and the answers that the futex gave. A call
-- stands in the history once it is answered: a FUTEX_WAIT that sleeps is answered when it ends.
use cse.Base.{ℕ, Option, none, some, List, [], ◌∷◌, ◌==◌, ◌≡◌, refl, if◌then◌else◌}
use cse.Base.Int.{ℤ, pos, negsuc}
use cse.Machine.{Call, sched_yield, store, futex_wait, futex_wake, Kernel, Trace, log}
use cse.Tasks.Switch.{
  ParentAt, parent_init, parent_store, parent_wake, parent_wake_yield, parent_yield, parent_wait,
  parent_wait_yield, parent_asleep, parent_done, ChildAt, child_init, child_yield, child_wait,
  child_wait_yield, child_asleep, child_store, child_wake, child_wake_yield, child_done, State,
  step_parent, step_child, interrupt_parent, interrupt_child, Move, parent_runs, child_runs,
  parent_signal, child_signal, step,
}

-- a call and what it returned
pub record Answer (D : Type 0) : Type 0 where
  pub call : Call D
  pub value : ℤ

abbrev pub answer : {D : Type 0} → Call D → ℤ → Answer D
answer c v = record { call = c; value = v }

abbrev pub prepend : {A : Type 0} → Option A → List A → List A
prepend none xs = xs
prepend (some a) xs = a ∷ xs

module _ {D : Type 0} (futex : ℤ) where
  -- the answer to the parent when it runs
  unfoldable pub parent_runs_answer : ParentAt → ChildAt → (word : ℕ) → Option (Answer D)
  parent_runs_answer parent_init ch word = some (answer (store futex 10) (pos 0))
  parent_runs_answer parent_store ch word = some (answer (store futex 10) (pos 0))
  parent_runs_answer parent_wake child_asleep word = some (answer (futex_wake futex 1) (pos 1))
  parent_runs_answer parent_wake ch word = some (answer (futex_wake futex 1) (pos 0))
  parent_runs_answer parent_wake_yield ch word = some (answer sched_yield (pos 0))
  parent_runs_answer parent_yield ch word = some (answer sched_yield (pos 0))
  parent_runs_answer parent_wait ch word =
      if word == 11 then none else some (answer (futex_wait futex 11) (negsuc 0))
  parent_runs_answer parent_wait_yield ch word = some (answer sched_yield (pos 0))
  parent_runs_answer parent_asleep ch word = none
  parent_runs_answer parent_done ch word = none

  -- the answer to the child when it runs
  unfoldable pub child_runs_answer : ChildAt → ParentAt → (word : ℕ) → Option (Answer D)
  child_runs_answer child_init pa word = some (answer (store futex 10) (pos 0))
  child_runs_answer child_yield pa word = some (answer sched_yield (pos 0))
  child_runs_answer child_wait pa word =
      if word == 10 then none else some (answer (futex_wait futex 10) (negsuc 0))
  child_runs_answer child_wait_yield pa word = some (answer sched_yield (pos 0))
  child_runs_answer child_asleep pa word = none
  child_runs_answer child_store pa word = some (answer (store futex 11) (pos 0))
  child_runs_answer child_wake parent_asleep word = some (answer (futex_wake futex 1) (pos 1))
  child_runs_answer child_wake pa word = some (answer (futex_wake futex 1) (pos 0))
  child_runs_answer child_wake_yield pa word = some (answer sched_yield (pos 0))
  child_runs_answer child_done pa word = none

  -- the end of the parent's sleep, by the child's wake-up or by a signal
  unfoldable pub parent_woken : ChildAt → ParentAt → Option (Answer D)
  parent_woken child_wake parent_asleep = some (answer (futex_wait futex 11) (pos 0))
  parent_woken ch pa = none

  unfoldable pub child_woken : ParentAt → ChildAt → Option (Answer D)
  child_woken parent_wake child_asleep = some (answer (futex_wait futex 10) (pos 0))
  child_woken pa ch = none

  unfoldable pub parent_interrupted : ParentAt → Option (Answer D)
  parent_interrupted parent_asleep = some (answer (futex_wait futex 11) (negsuc 0))
  parent_interrupted pa = none

  unfoldable pub child_interrupted : ChildAt → Option (Answer D)
  child_interrupted child_asleep = some (answer (futex_wait futex 10) (negsuc 0))
  child_interrupted ch = none

  -- what one move answers to the parent, and to the child
  unfoldable pub parent_answer : Move → State → Option (Answer D)
  parent_answer parent_runs s = parent_runs_answer s.parent s.child s.futex
  parent_answer child_runs s = parent_woken s.child s.parent
  parent_answer parent_signal s = parent_interrupted s.parent
  parent_answer child_signal s = none

  unfoldable pub child_answer : Move → State → Option (Answer D)
  child_answer parent_runs s = child_woken s.parent s.child
  child_answer child_runs s = child_runs_answer s.child s.parent s.futex
  child_answer parent_signal s = none
  child_answer child_signal s = child_interrupted s.child

  -- the answers of a schedule, oldest first
  unfoldable pub parent_history : List Move → State → List (Answer D)
  parent_history [] s = []
  parent_history (m ∷ schedule) s = prepend (parent_answer m s) (parent_history schedule (step m s))

  unfoldable pub child_history : List Move → State → List (Answer D)
  child_history [] s = []
  child_history (m ∷ schedule) s = prepend (child_answer m s) (child_history schedule (step m s))

module _ {D : Type 0} (k : Kernel D) where
  -- The kernel answers these calls, made in this order after the trace, xs they were answered.
  abbrev pub Replays : List (Answer D) → Trace D → Type 0
  Replays [] t = Unit {0}
  Replays (a ∷ xs) t = ((k t a.call).value ≡ a.value) × Replays xs (log k t a.call)

  -- the trace after these calls
  abbrev pub after : List (Answer D) → Trace D → Trace D
  after [] t = t
  after (a ∷ xs) t = after xs (log k t a.call)

  pub Replays-prepend :
      (o : Option (Answer D)) (xs : List (Answer D)) (t : Trace D)
      → Replays (prepend o xs) t
      → Replays (prepend o []) t × Replays xs (after (prepend o []) t)
  Replays-prepend none xs t h = (tt, h)
  Replays-prepend (some a) xs t (e, h) = ((e, tt), h)

  pub after-prepend :
      (o : Option (Answer D)) (xs : List (Answer D)) (t : Trace D)
      → after (prepend o xs) t ≡ after xs (after (prepend o []) t)
  after-prepend none xs t = refl
  after-prepend (some a) xs t = refl

-- Once both sides have ended, a move changes nothing and answers nothing.
pub ended :
    {D : Type 0} (futex : ℤ) (m : Move) (s : State)
    → s.parent ≡ parent_done
    → s.child ≡ child_done
    → (step m s ≡ s)
      × (parent_answer {D = D} futex m s ≡ none)
      × (child_answer {D = D} futex m s ≡ none)
unfolding step step_parent step_child interrupt_parent interrupt_child parent_answer child_answer
    parent_runs_answer child_runs_answer parent_woken child_woken parent_interrupted
    child_interrupted
ended futex parent_runs s p c = simp p (refl, refl, refl)
ended futex child_runs s p c = simp c (refl, refl, refl)
ended futex parent_signal s p c = simp p (refl, refl, refl)
ended futex child_signal s p c = simp c (refl, refl, refl)
