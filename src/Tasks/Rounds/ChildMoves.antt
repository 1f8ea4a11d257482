-- ===== src/Tasks/Rounds/ChildMoves.antt =====
-- A move of the machine of `Tasks.Switch` takes the child's program from what it had still to do to
-- what it has still to do behind the move.
use cse.Base.{ℕ, suc, ◌≤◌, ◌≡◌, refl, inl, inr, ◌==◌, Bool-cases, arith}
use cse.Base.Int.{ℤ}
use cse.Machine.{futex_wake, Kernel, log}
use cse.Tasks.Switch.{
  ParentAt, parent_init, parent_store, parent_wake, parent_wake_yield, parent_yield, parent_wait,
  parent_wait_yield, parent_asleep, parent_done, ChildAt, child_init, child_yield, child_wait,
  child_wait_yield, child_asleep, child_store, child_wake, child_wake_yield, child_done, State,
  next_rounds, parent_to, child_to, store, parent_wakes, child_wakes, step_parent, step_child,
  interrupt_parent, interrupt_child,
}
use cse.Tasks.Rounds.{retry}
use cse.Tasks.Rounds.History.{child_runs_answer, child_woken, child_interrupted}
use cse.Tasks.Rounds.ParentRest.{Advances}
use cse.Tasks.Rounds.ChildRest.{child_from, child_rest, repeat-child_rest}

module _ {D : Type 0} (k : Kernel D) (futex : ℤ) (full n f left word : ℕ) (enough : n ≤ f)
    (full_enough : n ≤ full) where
  abbrev at : ParentAt → ChildAt → State
  at pa ch = record {
    futex = word;
    parent = pa;
    parent_rounds = suc left;
    child = ch;
    child_rounds = suc left;
  }

  child_wakes-Advances :
      (pa : ParentAt)
      → Advances k futex full n
          (child_runs_answer futex child_wake pa word)
          (child_from futex full child_wake (suc f) left)
          (λ g.
            child_rest futex full
              (child_wakes pa (at pa child_wake)).child
              g
              (child_wakes pa (at pa child_wake)).child_rounds)
  unfolding child_runs_answer child_from child_rest child_wakes next_rounds child_to retry
  child_wakes-Advances parent_asleep t (e, _) = (
    full,
    full_enough,
    simp e (repeat-child_rest k futex full left full (log k t (futex_wake futex 1))),
  )
  child_wakes-Advances parent_init t (e, _) = (f, enough, rw e refl)
  child_wakes-Advances parent_store t (e, _) = (f, enough, rw e refl)
  child_wakes-Advances parent_wake t (e, _) = (f, enough, rw e refl)
  child_wakes-Advances parent_wake_yield t (e, _) = (f, enough, rw e refl)
  child_wakes-Advances parent_yield t (e, _) = (f, enough, rw e refl)
  child_wakes-Advances parent_wait t (e, _) = (f, enough, rw e refl)
  child_wakes-Advances parent_wait_yield t (e, _) = (f, enough, rw e refl)
  child_wakes-Advances parent_done t (e, _) = (f, enough, rw e refl)

  child_wait-Advances :
      (pa : ParentAt)
      → Advances k futex full n
          (child_runs_answer futex child_wait pa word)
          (child_from futex full child_wait (suc f) left)
          (λ g. child_rest futex full (step_child child_wait (at pa child_wait)).child g (suc left))
  unfolding child_runs_answer child_from child_rest step_child child_to retry
  child_wait-Advances pa = elim (Bool-cases (word == 10)) [
    | inl b ↦ rw b (λ t h. (suc f, omega arith, refl))
    | inr b ↦ rw b (λ t h. (f, enough, rw h.0 refl))
  ]

  -- the child's own moves
  pub child_steps-Advances :
      (pa : ParentAt) (ch : ChildAt)
      → Advances k futex full n
          (child_runs_answer futex ch pa word)
          (child_rest futex full ch (suc f) (suc left))
          (λ g.
            child_rest futex full
              (step_child ch (at pa ch)).child
              g
              (step_child ch (at pa ch)).child_rounds)
  unfolding child_runs_answer child_from child_rest step_child child_to store retry
  child_steps-Advances pa child_init t h = (full, full_enough, refl)
  child_steps-Advances pa child_yield t h = (full, full_enough, refl)
  child_steps-Advances pa child_wait t h = child_wait-Advances pa t h
  child_steps-Advances pa child_wait_yield t h = (suc f, omega arith, refl)
  child_steps-Advances pa child_asleep t h = (suc f, omega arith, refl)
  child_steps-Advances pa child_store t h = (full, full_enough, refl)
  child_steps-Advances pa child_wake t h = child_wakes-Advances pa t h
  child_steps-Advances pa child_wake_yield t h = (suc f, omega arith, refl)
  child_steps-Advances pa child_done t h = (suc f, omega arith, refl)

  -- The parent wakes the child, or it does not sleep.
  slept-Advances :
      (ch : ChildAt)
      → Advances k futex full n
          (child_woken futex parent_wake ch)
          (child_rest futex full ch (suc f) (suc left))
          (λ g.
            child_rest futex full
              (parent_wakes ch (at parent_wake ch)).child
              g
              (parent_wakes ch (at parent_wake ch)).child_rounds)
  unfolding child_woken child_from child_rest parent_wakes parent_to child_to retry
  slept-Advances child_asleep t (e, _) = (f, enough, rw e refl)
  slept-Advances child_init t h = (suc f, omega arith, refl)
  slept-Advances child_yield t h = (suc f, omega arith, refl)
  slept-Advances child_wait t h = (suc f, omega arith, refl)
  slept-Advances child_wait_yield t h = (suc f, omega arith, refl)
  slept-Advances child_store t h = (suc f, omega arith, refl)
  slept-Advances child_wake t h = (suc f, omega arith, refl)
  slept-Advances child_wake_yield t h = (suc f, omega arith, refl)
  slept-Advances child_done t h = (suc f, omega arith, refl)

  -- the parent's moves
  pub parent_steps-Advances :
      (pa : ParentAt) (ch : ChildAt)
      → Advances k futex full n
          (child_woken futex pa ch)
          (child_rest futex full ch (suc f) (suc left))
          (λ g.
            child_rest futex full
              (step_parent pa (at pa ch)).child
              g
              (step_parent pa (at pa ch)).child_rounds)
  unfolding child_woken step_parent parent_to store
  parent_steps-Advances parent_wake ch t h = slept-Advances ch t h
  parent_steps-Advances parent_init ch t h = (suc f, omega arith, refl)
  parent_steps-Advances parent_store ch t h = (suc f, omega arith, refl)
  parent_steps-Advances parent_wake_yield ch t h = (suc f, omega arith, refl)
  parent_steps-Advances parent_yield ch t h = (suc f, omega arith, refl)
  parent_steps-Advances parent_wait ch t h = (suc f, omega arith, refl)
  parent_steps-Advances parent_wait_yield ch t h = (suc f, omega arith, refl)
  parent_steps-Advances parent_asleep ch t h = (suc f, omega arith, refl)
  parent_steps-Advances parent_done ch t h = (suc f, omega arith, refl)

  -- a signal to the child
  pub child_signal-Advances :
      (pa : ParentAt) (ch : ChildAt)
      → Advances k futex full n
          (child_interrupted futex ch)
          (child_rest futex full ch (suc f) (suc left))
          (λ g.
            child_rest futex full
              (interrupt_child ch (at pa ch)).child
              g
              (interrupt_child ch (at pa ch)).child_rounds)
  unfolding child_interrupted child_from child_rest interrupt_child child_to retry
  child_signal-Advances pa child_asleep t (e, _) = (f, enough, rw e refl)
  child_signal-Advances pa child_init t h = (suc f, omega arith, refl)
  child_signal-Advances pa child_yield t h = (suc f, omega arith, refl)
  child_signal-Advances pa child_wait t h = (suc f, omega arith, refl)
  child_signal-Advances pa child_wait_yield t h = (suc f, omega arith, refl)
  child_signal-Advances pa child_store t h = (suc f, omega arith, refl)
  child_signal-Advances pa child_wake t h = (suc f, omega arith, refl)
  child_signal-Advances pa child_wake_yield t h = (suc f, omega arith, refl)
  child_signal-Advances pa child_done t h = (suc f, omega arith, refl)

-- a signal to the parent
pub interrupt_parent-child :
    (pa : ParentAt) (s : State)
    → ((interrupt_parent pa s).child ≡ s.child)
      × ((interrupt_parent pa s).child_rounds ≡ s.child_rounds)
unfolding interrupt_parent parent_to
interrupt_parent-child parent_asleep s = (refl, refl)
interrupt_parent-child parent_init s = (refl, refl)
interrupt_parent-child parent_store s = (refl, refl)
interrupt_parent-child parent_wake s = (refl, refl)
interrupt_parent-child parent_wake_yield s = (refl, refl)
interrupt_parent-child parent_yield s = (refl, refl)
interrupt_parent-child parent_wait s = (refl, refl)
interrupt_parent-child parent_wait_yield s = (refl, refl)
interrupt_parent-child parent_done s = (refl, refl)
