-- ===== src/Tasks/Switch/Alternate.antt =====
-- Every interleaving of the two sides: they alternate, and never sleep both.
use cse.Base.{ℕ, suc, ◌≡◌, refl, ◌⊎◌, inl, inr, List, [], ◌∷◌}
use cse.Tasks.Switch.{
  ParentAt, parent_init, parent_store, parent_wake, parent_wake_yield, parent_yield, parent_wait,
  parent_wait_yield, parent_asleep, parent_done, ChildAt, child_init, child_yield, child_wait,
  child_wait_yield, child_asleep, child_store, child_wake, child_wake_yield, child_done, State,
  parent_to, child_to, step_parent, step_child, interrupt_parent, interrupt_child, Move,
  parent_runs, child_runs, parent_signal, child_signal, step, run, start,
}
use cse.Tasks.Switch.Turns.{
  Turn, parent_turn, child_turn, finished, ParentWaits, ParentTurns, ChildWaits, ChildTurns,
  step_parent-Turn, wait_parent-Turn, step_child-Turn, wait_child-Turn,
}

module _ (w p c left : ℕ) (e : p ≡ suc left) (f : c ≡ suc left) where
  abbrev at : ParentAt → ChildAt → State
  at pa ch = record { futex = w; parent = pa; parent_rounds = p; child = ch; child_rounds = c }

  interrupt_parent-Turn :
      (pa : ParentAt) (ch : ChildAt)
      → Turn (at pa ch)
      → ParentWaits w pa
      → ChildTurns w ch
      → Turn (interrupt_parent pa (at pa ch))
  unfolding interrupt_parent parent_to
  interrupt_parent-Turn parent_asleep ch t h g = child_turn left e f tt g
  interrupt_parent-Turn parent_init ch t h g = t
  interrupt_parent-Turn parent_store ch t h g = t
  interrupt_parent-Turn parent_wake ch t h g = t
  interrupt_parent-Turn parent_wake_yield ch t h g = t
  interrupt_parent-Turn parent_yield ch t h g = t
  interrupt_parent-Turn parent_wait ch t h g = t
  interrupt_parent-Turn parent_wait_yield ch t h g = t
  interrupt_parent-Turn parent_done ch t h g = t

  interrupt_child-Turn :
      (pa : ParentAt) (ch : ChildAt)
      → Turn (at pa ch)
      → ParentTurns w pa
      → ChildWaits w ch
      → Turn (interrupt_child ch (at pa ch))
  unfolding interrupt_child child_to
  interrupt_child-Turn pa child_asleep t h g = parent_turn left e f h tt
  interrupt_child-Turn pa child_init t h g = t
  interrupt_child-Turn pa child_yield t h g = t
  interrupt_child-Turn pa child_wait t h g = t
  interrupt_child-Turn pa child_wait_yield t h g = t
  interrupt_child-Turn pa child_store t h g = t
  interrupt_child-Turn pa child_wake t h g = t
  interrupt_child-Turn pa child_wake_yield t h g = t
  interrupt_child-Turn pa child_done t h g = t

  -- A signal to the side that has the turn changes nothing.
  idle_parent :
      (pa : ParentAt) (ch : ChildAt)
      → Turn (at pa ch)
      → ParentTurns w pa
      → Turn (interrupt_parent pa (at pa ch))
  unfolding interrupt_parent
  idle_parent parent_init ch t h = t
  idle_parent parent_store ch t h = t
  idle_parent parent_wake ch t h = t
  idle_parent parent_wake_yield ch t h = t
  idle_parent parent_yield ch t h = t
  idle_parent parent_wait ch t h = t
  idle_parent parent_wait_yield ch t h = t
  idle_parent parent_asleep ch t h = elim h [ ]
  idle_parent parent_done ch t h = t

  idle_child :
      (pa : ParentAt) (ch : ChildAt)
      → Turn (at pa ch)
      → ChildTurns w ch
      → Turn (interrupt_child ch (at pa ch))
  unfolding interrupt_child
  idle_child pa child_asleep t h = elim h [ ]
  idle_child pa child_init t h = t
  idle_child pa child_yield t h = t
  idle_child pa child_wait t h = t
  idle_child pa child_wait_yield t h = t
  idle_child pa child_store t h = t
  idle_child pa child_wake t h = t
  idle_child pa child_wake_yield t h = t
  idle_child pa child_done t h = t

step-finished :
    (m : Move) (s : State)
    → Turn s
    → s.parent ≡ parent_done
    → s.child ≡ child_done
    → Turn (step m s)
unfolding step step_parent step_child interrupt_parent interrupt_child
step-finished parent_runs s t e f = simp e t
step-finished child_runs s t e f = simp f t
step-finished parent_signal s t e f = simp e t
step-finished child_signal s t e f = simp f t

pub step-Turn : (m : Move) (s : State) → Turn s → Turn (step m s)
unfolding step
step-Turn parent_runs s (parent_turn n e f h g) =
    step_parent-Turn s.futex s.parent_rounds s.child_rounds n e f s.parent s.child h g
step-Turn parent_runs s (child_turn n e f h g) =
    wait_parent-Turn s.futex s.parent_rounds s.child_rounds n e f s.parent s.child h g
step-Turn child_runs s (parent_turn n e f h g) =
    wait_child-Turn s.futex s.parent_rounds s.child_rounds n e f s.parent s.child h g
step-Turn child_runs s (child_turn n e f h g) =
    step_child-Turn s.futex s.parent_rounds s.child_rounds n e f s.parent s.child h g
step-Turn parent_signal s (parent_turn n e f h g) =
    idle_parent s.futex s.parent_rounds s.child_rounds n e f s.parent s.child
      (parent_turn n e f h g) h
step-Turn parent_signal s (child_turn n e f h g) =
    interrupt_parent-Turn s.futex s.parent_rounds s.child_rounds n e f s.parent s.child
      (child_turn n e f h g) h g
step-Turn child_signal s (parent_turn n e f h g) =
    interrupt_child-Turn s.futex s.parent_rounds s.child_rounds n e f s.parent s.child
      (parent_turn n e f h g) h g
step-Turn child_signal s (child_turn n e f h g) =
    idle_child s.futex s.parent_rounds s.child_rounds n e f s.parent s.child (child_turn n e f h g)
      g
step-Turn m s (finished e f h g) = step-finished m s (finished e f h g) h g

pub run-keeps : (schedule : List Move) (s : State) → Turn s → Turn (run schedule s)
unfolding run
run-keeps [] s t = t
run-keeps (m ∷ schedule) s t = run-keeps schedule (step m s) (step-Turn m s t)

pub start-Turn :
    (child : ChildAt) (word left : ℕ)
    → (child ≡ child_yield) ⊎ (child ≡ child_init)
    → Turn (start child word (suc left))
unfolding start
start-Turn child word left (inl e) = rw e (parent_turn left refl refl tt tt)
start-Turn child word left (inr e) = rw e (parent_turn left refl refl tt tt)

not_both : (s : State) → Turn s → ¬ ((s.parent ≡ parent_asleep) × (s.child ≡ child_asleep))
not_both s (parent_turn n e f h g) (p, c) = elim (rw p at h) [ ]
not_both s (child_turn n e f h g) (p, c) = elim (rw c at g) [ ]
not_both s (finished e f h g) (p, c) = cc

-- Of the thread program, whose child begins its loop at once, and of the process program, whose child
-- begins with a store: after any schedule with any signals, whatever the word held at first, one side
-- has the turn and the other waits for it, with as many rounds left on either side, or both have ended;
-- and they do not sleep both.
pub run-Turn :
    (child : ChildAt) (word left : ℕ) (schedule : List Move)
    → (child ≡ child_yield) ⊎ (child ≡ child_init)
    → Turn (run schedule (start child word (suc left)))
      × ¬ (
          ((run schedule (start child word (suc left))).parent ≡ parent_asleep)
          × ((run schedule (start child word (suc left))).child ≡ child_asleep))
run-Turn child word left schedule begins =
    let t = run-keeps schedule (start child word (suc left)) (start-Turn child word left begins) in
    (t, not_both (run schedule (start child word (suc left))) t)
