-- ===== src/Tasks/Rounds/Wakes.antt =====
-- How often the sides of the machine of `Tasks.Switch` wake each other.
use cse.Base.{
  ℕ, zero, suc, ◌+◌, ◌-◌, ◌≡◌, inl, inr, ◌==◌, Bool-cases, Option, none, some, List, [], ◌∷◌, arith,
}
use cse.Base.Int.{ℤ, pos}
use cse.Machine.{futex_wait, futex_wake, Call}
use cse.Tasks.Switch.{
  ParentAt, parent_init, parent_store, parent_wake, parent_wake_yield, parent_yield, parent_wait,
  parent_wait_yield, parent_asleep, parent_done, ChildAt, child_init, child_yield, child_wait,
  child_wait_yield, child_asleep, child_store, child_wake, child_wake_yield, child_done, State,
  parent_loop, child_loop, next_rounds, parent_to, child_to, store, parent_wakes, child_wakes,
  step_parent, step_child, interrupt_parent, interrupt_child,
}
use cse.Tasks.Switch.Finish.{at}
use cse.Tasks.Rounds.History.{
  Answer, prepend, parent_runs_answer, child_runs_answer, parent_woken, child_woken,
  parent_interrupted, child_interrupted,
}

-- a FUTEX_WAKE that woke somebody
abbrev pub is_wake : {D : Type 0} → Call D → ℤ → ℕ
is_wake (futex_wake pointer count) (pos (suc woken)) = 1
is_wake _ _ = 0

-- a FUTEX_WAIT that ended because of a wake-up
abbrev pub is_woken : {D : Type 0} → Call D → ℤ → ℕ
is_woken (futex_wait pointer expected) (pos zero) = 1
is_woken _ _ = 0

unfoldable pub wakes : {D : Type 0} → List (Answer D) → ℕ
wakes [] = 0
wakes (a ∷ xs) = is_wake a.call a.value + wakes xs

unfoldable pub woken : {D : Type 0} → List (Answer D) → ℕ
woken [] = 0
woken (a ∷ xs) = is_woken a.call a.value + woken xs

-- how often the parent will still wake the child
unfoldable pub to_wake_at : ParentAt → (rounds : ℕ) → ℕ
to_wake_at parent_init rounds = rounds
to_wake_at parent_store rounds = rounds
to_wake_at parent_wake rounds = rounds
to_wake_at parent_wake_yield rounds = rounds
to_wake_at parent_yield rounds = rounds - 1
to_wake_at parent_wait rounds = rounds - 1
to_wake_at parent_wait_yield rounds = rounds - 1
to_wake_at parent_asleep rounds = rounds - 1
to_wake_at parent_done rounds = 0

unfoldable pub to_wake : State → ℕ
to_wake s = to_wake_at s.parent s.parent_rounds

-- What a move answers is what is no longer to come: the parent's wake-ups and the waits of the child that
-- they end, and the child's wake-ups and the waits of the parent that they end.
abbrev pub Counted : {D : Type 0} → Option (Answer D) → Option (Answer D) → State → State → Type 0
Counted to_parent to_child s s' =
    (wakes (prepend to_parent []) + to_wake s' ≡ to_wake s)
    × (woken (prepend to_child []) + to_wake s' ≡ to_wake s)
    × (wakes (prepend to_child []) + s'.parent_rounds ≡ s.parent_rounds)
    × (woken (prepend to_parent []) + s'.parent_rounds ≡ s.parent_rounds)

module _ (D : Type 0) (futex : ℤ) (word left : ℕ) where
  parent_wakes-Counted :
      (ch : ChildAt)
      → Counted {D = D}
          (parent_runs_answer futex parent_wake ch word)
          (child_woken futex parent_wake ch)
          (at word left parent_wake ch)
          (parent_wakes ch (at word left parent_wake ch))
  unfolding parent_runs_answer child_woken wakes woken to_wake to_wake_at parent_wakes parent_to
      child_to
  parent_wakes-Counted child_init = (omega arith, omega arith, omega arith, omega arith)
  parent_wakes-Counted child_yield = (omega arith, omega arith, omega arith, omega arith)
  parent_wakes-Counted child_wait = (omega arith, omega arith, omega arith, omega arith)
  parent_wakes-Counted child_wait_yield = (omega arith, omega arith, omega arith, omega arith)
  parent_wakes-Counted child_asleep = (omega arith, omega arith, omega arith, omega arith)
  parent_wakes-Counted child_store = (omega arith, omega arith, omega arith, omega arith)
  parent_wakes-Counted child_wake = (omega arith, omega arith, omega arith, omega arith)
  parent_wakes-Counted child_wake_yield = (omega arith, omega arith, omega arith, omega arith)
  parent_wakes-Counted child_done = (omega arith, omega arith, omega arith, omega arith)

  pub parent_runs-Counted :
      (pa : ParentAt) (ch : ChildAt)
      → Counted {D = D}
          (parent_runs_answer futex pa ch word)
          (child_woken futex pa ch)
          (at word left pa ch)
          (step_parent pa (at word left pa ch))
  unfolding parent_runs_answer child_woken wakes woken to_wake to_wake_at step_parent parent_to
      store
  parent_runs-Counted parent_wake ch = parent_wakes-Counted ch
  parent_runs-Counted parent_wait ch = elim (Bool-cases (word == 11)) [
    | inl e ↦ rw e (omega arith, omega arith, omega arith, omega arith)
    | inr e ↦ rw e (omega arith, omega arith, omega arith, omega arith)
  ]
  parent_runs-Counted parent_init ch = (omega arith, omega arith, omega arith, omega arith)
  parent_runs-Counted parent_store ch = (omega arith, omega arith, omega arith, omega arith)
  parent_runs-Counted parent_wake_yield ch = (omega arith, omega arith, omega arith, omega arith)
  parent_runs-Counted parent_yield ch = (omega arith, omega arith, omega arith, omega arith)
  parent_runs-Counted parent_wait_yield ch = (omega arith, omega arith, omega arith, omega arith)
  parent_runs-Counted parent_asleep ch = (omega arith, omega arith, omega arith, omega arith)
  parent_runs-Counted parent_done ch = (omega arith, omega arith, omega arith, omega arith)

  next_rounds-Counted :
      (left : ℕ)
      → Counted {D = D}
          (some (record { call = futex_wait futex 11; value = pos 0 }))
          (some (record { call = futex_wake futex 1; value = pos 1 }))
          (at word left parent_asleep child_wake)
          (next_rounds word (suc left) (suc left))
  unfolding wakes woken to_wake to_wake_at next_rounds parent_loop child_loop
  next_rounds-Counted zero = (omega arith, omega arith, omega arith, omega arith)
  next_rounds-Counted (suc left) = (omega arith, omega arith, omega arith, omega arith)

  child_wakes-Counted :
      (pa : ParentAt)
      → Counted {D = D}
          (parent_woken futex child_wake pa)
          (child_runs_answer futex child_wake pa word)
          (at word left pa child_wake)
          (child_wakes pa (at word left pa child_wake))
  unfolding parent_woken child_runs_answer wakes woken to_wake child_wakes child_to
  child_wakes-Counted parent_asleep = next_rounds-Counted left
  child_wakes-Counted parent_init = (omega arith, omega arith, omega arith, omega arith)
  child_wakes-Counted parent_store = (omega arith, omega arith, omega arith, omega arith)
  child_wakes-Counted parent_wake = (omega arith, omega arith, omega arith, omega arith)
  child_wakes-Counted parent_wake_yield = (omega arith, omega arith, omega arith, omega arith)
  child_wakes-Counted parent_yield = (omega arith, omega arith, omega arith, omega arith)
  child_wakes-Counted parent_wait = (omega arith, omega arith, omega arith, omega arith)
  child_wakes-Counted parent_wait_yield = (omega arith, omega arith, omega arith, omega arith)
  child_wakes-Counted parent_done = (omega arith, omega arith, omega arith, omega arith)

  pub child_runs-Counted :
      (pa : ParentAt) (ch : ChildAt)
      → Counted {D = D}
          (parent_woken futex ch pa)
          (child_runs_answer futex ch pa word)
          (at word left pa ch)
          (step_child ch (at word left pa ch))
  unfolding parent_woken child_runs_answer wakes woken to_wake step_child child_to store
  child_runs-Counted pa child_wake = child_wakes-Counted pa
  child_runs-Counted pa child_wait = elim (Bool-cases (word == 10)) [
    | inl e ↦ rw e (omega arith, omega arith, omega arith, omega arith)
    | inr e ↦ rw e (omega arith, omega arith, omega arith, omega arith)
  ]
  child_runs-Counted pa child_init = (omega arith, omega arith, omega arith, omega arith)
  child_runs-Counted pa child_yield = (omega arith, omega arith, omega arith, omega arith)
  child_runs-Counted pa child_wait_yield = (omega arith, omega arith, omega arith, omega arith)
  child_runs-Counted pa child_asleep = (omega arith, omega arith, omega arith, omega arith)
  child_runs-Counted pa child_store = (omega arith, omega arith, omega arith, omega arith)
  child_runs-Counted pa child_wake_yield = (omega arith, omega arith, omega arith, omega arith)
  child_runs-Counted pa child_done = (omega arith, omega arith, omega arith, omega arith)

  pub parent_signal-Counted :
      (pa : ParentAt) (ch : ChildAt)
      → Counted {D = D}
          (parent_interrupted futex pa)
          none
          (at word left pa ch)
          (interrupt_parent pa (at word left pa ch))
  unfolding parent_interrupted wakes woken to_wake to_wake_at interrupt_parent parent_to
  parent_signal-Counted parent_init ch = (omega arith, omega arith, omega arith, omega arith)
  parent_signal-Counted parent_store ch = (omega arith, omega arith, omega arith, omega arith)
  parent_signal-Counted parent_wake ch = (omega arith, omega arith, omega arith, omega arith)
  parent_signal-Counted parent_wake_yield ch = (omega arith, omega arith, omega arith, omega arith)
  parent_signal-Counted parent_yield ch = (omega arith, omega arith, omega arith, omega arith)
  parent_signal-Counted parent_wait ch = (omega arith, omega arith, omega arith, omega arith)
  parent_signal-Counted parent_wait_yield ch = (omega arith, omega arith, omega arith, omega arith)
  parent_signal-Counted parent_asleep ch = (omega arith, omega arith, omega arith, omega arith)
  parent_signal-Counted parent_done ch = (omega arith, omega arith, omega arith, omega arith)

  pub child_signal-Counted :
      (pa : ParentAt) (ch : ChildAt)
      → Counted {D = D} none
          (child_interrupted futex ch)
          (at word left pa ch)
          (interrupt_child ch (at word left pa ch))
  unfolding child_interrupted wakes woken to_wake interrupt_child child_to
  child_signal-Counted pa child_init = (omega arith, omega arith, omega arith, omega arith)
  child_signal-Counted pa child_yield = (omega arith, omega arith, omega arith, omega arith)
  child_signal-Counted pa child_wait = (omega arith, omega arith, omega arith, omega arith)
  child_signal-Counted pa child_wait_yield = (omega arith, omega arith, omega arith, omega arith)
  child_signal-Counted pa child_asleep = (omega arith, omega arith, omega arith, omega arith)
  child_signal-Counted pa child_store = (omega arith, omega arith, omega arith, omega arith)
  child_signal-Counted pa child_wake = (omega arith, omega arith, omega arith, omega arith)
  child_signal-Counted pa child_wake_yield = (omega arith, omega arith, omega arith, omega arith)
  child_signal-Counted pa child_done = (omega arith, omega arith, omega arith, omega arith)
