-- ===== src/Tasks/Rounds/ParentMoves.antt =====
-- A move of the machine of `Tasks.Switch` takes the parent's program from what it had still to do to
-- what it has still to do behind the move.
use cse.Base.{ℕ, suc, ◌≤◌, ◌≡◌, refl, inl, inr, ◌==◌, Bool-cases, arith}
use cse.Base.Int.{ℤ}
use cse.Machine.{futex_wait, Kernel, log}
use cse.Tasks.Switch.{
  ParentAt, parent_init, parent_store, parent_wake, parent_wake_yield, parent_yield, parent_wait,
  parent_wait_yield, parent_asleep, parent_done, ChildAt, child_init, child_yield, child_wait,
  child_wait_yield, child_asleep, child_store, child_wake, child_wake_yield, child_done, State,
  next_rounds, parent_to, child_to, store, parent_wakes, child_wakes, step_parent, step_child,
  interrupt_parent, interrupt_child,
}
use cse.Tasks.Rounds.{retry}
use cse.Tasks.Rounds.History.{parent_runs_answer, parent_woken, parent_interrupted}
use cse.Tasks.Rounds.ParentRest.{parent_from, parent_rest, Advances, repeat-parent_rest}

module _ {D : Type 0} (k : Kernel D) (futex : ℤ) (full n f left word : ℕ) (enough : n ≤ f)
    (full_enough : n ≤ full) where
  abbrev at : ParentAt → ChildAt → State
  at pa ch = record {
    futex = word;
    parent = pa;
    parent_rounds = suc left;
    child = ch;
    child_rounds = suc left;
  }

  parent_wakes-Advances :
      (ch : ChildAt)
      → Advances k futex full n
          (parent_runs_answer futex parent_wake ch word)
          (parent_from futex full parent_wake (suc f) left)
          (λ g.
            parent_rest futex full
              (parent_wakes ch (at parent_wake ch)).parent
              g
              (parent_wakes ch (at parent_wake ch)).parent_rounds)
  unfolding parent_runs_answer parent_from parent_rest parent_wakes parent_to child_to retry
  parent_wakes-Advances child_asleep t (e, _) = (f, enough, rw e refl)
  parent_wakes-Advances child_init t (e, _) = (f, enough, rw e refl)
  parent_wakes-Advances child_yield t (e, _) = (f, enough, rw e refl)
  parent_wakes-Advances child_wait t (e, _) = (f, enough, rw e refl)
  parent_wakes-Advances child_wait_yield t (e, _) = (f, enough, rw e refl)
  parent_wakes-Advances child_store t (e, _) = (f, enough, rw e refl)
  parent_wakes-Advances child_wake t (e, _) = (f, enough, rw e refl)
  parent_wakes-Advances child_wake_yield t (e, _) = (f, enough, rw e refl)
  parent_wakes-Advances child_done t (e, _) = (f, enough, rw e refl)

  parent_wait-Advances :
      (ch : ChildAt)
      → Advances k futex full n
          (parent_runs_answer futex parent_wait ch word)
          (parent_from futex full parent_wait (suc f) left)
          (λ g.
            parent_rest futex full
              (step_parent parent_wait (at parent_wait ch)).parent
              g
              (suc left))
  unfolding parent_runs_answer parent_from parent_rest step_parent parent_to retry
  parent_wait-Advances ch = elim (Bool-cases (word == 11)) [
    | inl b ↦ rw b (λ t h. (suc f, omega arith, refl))
    | inr b ↦ rw b (λ t h. (f, enough, rw h.0 refl))
  ]

  -- the parent's own moves
  pub parent_runs-Advances :
      (pa : ParentAt) (ch : ChildAt)
      → Advances k futex full n
          (parent_runs_answer futex pa ch word)
          (parent_rest futex full pa (suc f) (suc left))
          (λ g.
            parent_rest futex full
              (step_parent pa (at pa ch)).parent
              g
              (step_parent pa (at pa ch)).parent_rounds)
  unfolding parent_runs_answer parent_from parent_rest step_parent parent_to store retry
  parent_runs-Advances parent_init ch t h = (f, enough, refl)
  parent_runs-Advances parent_store ch t h = (full, full_enough, refl)
  parent_runs-Advances parent_wake ch t h = parent_wakes-Advances ch t h
  parent_runs-Advances parent_wake_yield ch t h = (suc f, omega arith, refl)
  parent_runs-Advances parent_yield ch t h = (full, full_enough, refl)
  parent_runs-Advances parent_wait ch t h = parent_wait-Advances ch t h
  parent_runs-Advances parent_wait_yield ch t h = (suc f, omega arith, refl)
  parent_runs-Advances parent_asleep ch t h = (suc f, omega arith, refl)
  parent_runs-Advances parent_done ch t h = (suc f, omega arith, refl)

  -- The child wakes the parent, or it does not sleep.
  woken-Advances :
      (pa : ParentAt)
      → Advances k futex full n
          (parent_woken futex child_wake pa)
          (parent_rest futex full pa (suc f) (suc left))
          (λ g.
            parent_rest futex full
              (child_wakes pa (at pa child_wake)).parent
              g
              (child_wakes pa (at pa child_wake)).parent_rounds)
  unfolding parent_woken parent_from parent_rest child_wakes child_to next_rounds retry
  woken-Advances parent_asleep t (e, _) = (
    full,
    full_enough,
    simp e (repeat-parent_rest k futex full left full (log k t (futex_wait futex 11))),
  )
  woken-Advances parent_init t h = (suc f, omega arith, refl)
  woken-Advances parent_store t h = (suc f, omega arith, refl)
  woken-Advances parent_wake t h = (suc f, omega arith, refl)
  woken-Advances parent_wake_yield t h = (suc f, omega arith, refl)
  woken-Advances parent_yield t h = (suc f, omega arith, refl)
  woken-Advances parent_wait t h = (suc f, omega arith, refl)
  woken-Advances parent_wait_yield t h = (suc f, omega arith, refl)
  woken-Advances parent_done t h = (suc f, omega arith, refl)

  -- the child's moves
  pub child_runs-Advances :
      (pa : ParentAt) (ch : ChildAt)
      → Advances k futex full n
          (parent_woken futex ch pa)
          (parent_rest futex full pa (suc f) (suc left))
          (λ g.
            parent_rest futex full
              (step_child ch (at pa ch)).parent
              g
              (step_child ch (at pa ch)).parent_rounds)
  unfolding parent_woken step_child child_to store
  child_runs-Advances pa child_wake t h = woken-Advances pa t h
  child_runs-Advances pa child_init t h = (suc f, omega arith, refl)
  child_runs-Advances pa child_yield t h = (suc f, omega arith, refl)
  child_runs-Advances pa child_wait t h = (suc f, omega arith, refl)
  child_runs-Advances pa child_wait_yield t h = (suc f, omega arith, refl)
  child_runs-Advances pa child_asleep t h = (suc f, omega arith, refl)
  child_runs-Advances pa child_store t h = (suc f, omega arith, refl)
  child_runs-Advances pa child_wake_yield t h = (suc f, omega arith, refl)
  child_runs-Advances pa child_done t h = (suc f, omega arith, refl)

  -- a signal to the parent
  pub parent_signal-Advances :
      (pa : ParentAt) (ch : ChildAt)
      → Advances k futex full n
          (parent_interrupted futex pa)
          (parent_rest futex full pa (suc f) (suc left))
          (λ g.
            parent_rest futex full
              (interrupt_parent pa (at pa ch)).parent
              g
              (interrupt_parent pa (at pa ch)).parent_rounds)
  unfolding parent_interrupted parent_from parent_rest interrupt_parent parent_to retry
  parent_signal-Advances parent_asleep ch t (e, _) = (f, enough, rw e refl)
  parent_signal-Advances parent_init ch t h = (suc f, omega arith, refl)
  parent_signal-Advances parent_store ch t h = (suc f, omega arith, refl)
  parent_signal-Advances parent_wake ch t h = (suc f, omega arith, refl)
  parent_signal-Advances parent_wake_yield ch t h = (suc f, omega arith, refl)
  parent_signal-Advances parent_yield ch t h = (suc f, omega arith, refl)
  parent_signal-Advances parent_wait ch t h = (suc f, omega arith, refl)
  parent_signal-Advances parent_wait_yield ch t h = (suc f, omega arith, refl)
  parent_signal-Advances parent_done ch t h = (suc f, omega arith, refl)

-- a signal to the child
pub interrupt_child-parent :
    (ch : ChildAt) (s : State)
    → ((interrupt_child ch s).parent ≡ s.parent)
      × ((interrupt_child ch s).parent_rounds ≡ s.parent_rounds)
unfolding interrupt_child child_to
interrupt_child-parent child_asleep s = (refl, refl)
interrupt_child-parent child_init s = (refl, refl)
interrupt_child-parent child_yield s = (refl, refl)
interrupt_child-parent child_wait s = (refl, refl)
interrupt_child-parent child_wait_yield s = (refl, refl)
interrupt_child-parent child_store s = (refl, refl)
interrupt_child-parent child_wake s = (refl, refl)
interrupt_child-parent child_wake_yield s = (refl, refl)
interrupt_child-parent child_done s = (refl, refl)
