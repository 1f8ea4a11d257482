-- ===== src/Tasks/Switch/Turns.antt =====
-- The two sides take turns: an invariant of every interleaving.
use cse.Base.{ℕ, zero, suc, ◌≡◌, refl, inl, inr, ◌==◌, Bool-cases, arith}
use cse.Tasks.Switch.{
  ParentAt, parent_init, parent_store, parent_wake, parent_wake_yield, parent_yield, parent_wait,
  parent_wait_yield, parent_asleep, parent_done, ChildAt, child_init, child_yield, child_wait,
  child_wait_yield, child_asleep, child_store, child_wake, child_wake_yield, child_done, State,
  parent_loop, child_loop, next_rounds, parent_to, child_to, store, parent_wakes, child_wakes,
  step_parent, step_child,
}

-- how the child can stand while the parent has the turn; it sleeps only on the word 0xA
abbrev pub ChildWaits : ℕ → ChildAt → Type 0
ChildWaits word child_init = Unit {0}
ChildWaits word child_yield = Unit {0}
ChildWaits word child_wait = Unit {0}
ChildWaits word child_wait_yield = Unit {0}
ChildWaits word child_asleep = word ≡ 10
ChildWaits word _ = ⊥

-- how the parent can stand while it has the turn; the word is 0xA once it has stored it
abbrev pub ParentTurns : ℕ → ParentAt → Type 0
ParentTurns word parent_init = Unit {0}
ParentTurns word parent_store = Unit {0}
ParentTurns word parent_wake = word ≡ 10
ParentTurns word parent_wake_yield = word ≡ 10
ParentTurns word _ = ⊥

abbrev pub ParentWaits : ℕ → ParentAt → Type 0
ParentWaits word parent_yield = Unit {0}
ParentWaits word parent_wait = Unit {0}
ParentWaits word parent_wait_yield = Unit {0}
ParentWaits word parent_asleep = word ≡ 11
ParentWaits word _ = ⊥

abbrev pub ChildTurns : ℕ → ChildAt → Type 0
ChildTurns word child_store = word ≡ 10
ChildTurns word child_wake = word ≡ 11
ChildTurns word child_wake_yield = word ≡ 11
ChildTurns word _ = ⊥

-- One side has the turn, or both have ended; the sides have the same number of rounds left.
pub data Turn (s : State) : Type 0 where
  parent_turn :
      (left : ℕ)
      → s.parent_rounds ≡ suc left
      → s.child_rounds ≡ suc left
      → ParentTurns s.futex s.parent
      → ChildWaits s.futex s.child
      → Turn s
  child_turn :
      (left : ℕ)
      → s.parent_rounds ≡ suc left
      → s.child_rounds ≡ suc left
      → ParentWaits s.futex s.parent
      → ChildTurns s.futex s.child
      → Turn s
  finished :
      s.parent_rounds ≡ 0
      → s.child_rounds ≡ 0
      → s.parent ≡ parent_done
      → s.child ≡ child_done
      → Turn s

pub ChildWaits-10 : (w : ℕ) (ch : ChildAt) → ChildWaits w ch → ChildWaits 10 ch
ChildWaits-10 w child_init h = tt
ChildWaits-10 w child_yield h = tt
ChildWaits-10 w child_wait h = tt
ChildWaits-10 w child_wait_yield h = tt
ChildWaits-10 w child_asleep h = refl
ChildWaits-10 w child_store h = elim h [ ]
ChildWaits-10 w child_wake h = elim h [ ]
ChildWaits-10 w child_wake_yield h = elim h [ ]
ChildWaits-10 w child_done h = elim h [ ]

pub ParentWaits-11 : (w : ℕ) (pa : ParentAt) → w ≡ 10 → ParentWaits w pa → ParentWaits 11 pa
ParentWaits-11 w parent_yield e h = tt
ParentWaits-11 w parent_wait e h = tt
ParentWaits-11 w parent_wait_yield e h = tt
ParentWaits-11 w parent_asleep e h = refl
ParentWaits-11 w parent_init e h = elim h [ ]
ParentWaits-11 w parent_store e h = elim h [ ]
ParentWaits-11 w parent_wake e h = elim h [ ]
ParentWaits-11 w parent_wake_yield e h = elim h [ ]
ParentWaits-11 w parent_done e h = elim h [ ]

ParentTurns-10 : (w : ℕ) (pa : ParentAt) → ParentTurns w pa → ParentTurns 10 pa
ParentTurns-10 w parent_init h = tt
ParentTurns-10 w parent_store h = tt
ParentTurns-10 w parent_wake h = refl
ParentTurns-10 w parent_wake_yield h = refl
ParentTurns-10 w parent_yield h = elim h [ ]
ParentTurns-10 w parent_wait h = elim h [ ]
ParentTurns-10 w parent_wait_yield h = elim h [ ]
ParentTurns-10 w parent_asleep h = elim h [ ]
ParentTurns-10 w parent_done h = elim h [ ]

next_rounds-Turn : (w left : ℕ) → Turn (next_rounds w (suc left) (suc left))
unfolding next_rounds parent_loop child_loop
next_rounds-Turn w zero = finished refl refl refl refl
next_rounds-Turn w (suc left) = parent_turn left refl refl tt tt

module _ (w p c left : ℕ) (e : p ≡ suc left) (f : c ≡ suc left) where
  -- the state of the parameters
  abbrev at : ParentAt → ChildAt → State
  at pa ch = record { futex = w; parent = pa; parent_rounds = p; child = ch; child_rounds = c }

  parent_wakes-Turn :
      (ch : ChildAt) → w ≡ 10 → ChildWaits w ch → Turn (parent_wakes ch (at parent_wake ch))
  unfolding parent_wakes parent_to child_to
  parent_wakes-Turn child_init h g = parent_turn left e f h g
  parent_wakes-Turn child_yield h g = parent_turn left e f h g
  parent_wakes-Turn child_wait h g = parent_turn left e f h g
  parent_wakes-Turn child_wait_yield h g = parent_turn left e f h g
  parent_wakes-Turn child_asleep h g = child_turn left e f tt h
  parent_wakes-Turn child_store h g = elim g [ ]
  parent_wakes-Turn child_wake h g = elim g [ ]
  parent_wakes-Turn child_wake_yield h g = elim g [ ]
  parent_wakes-Turn child_done h g = elim g [ ]

  child_wakes-Turn :
      (pa : ParentAt) → w ≡ 11 → ParentWaits w pa → Turn (child_wakes pa (at pa child_wake))
  unfolding child_wakes child_to
  child_wakes-Turn parent_yield h g = child_turn left e f g h
  child_wakes-Turn parent_wait h g = child_turn left e f g h
  child_wakes-Turn parent_wait_yield h g = child_turn left e f g h
  child_wakes-Turn parent_asleep h g = rw (e, f) (next_rounds-Turn w left)
  child_wakes-Turn parent_init h g = elim g [ ]
  child_wakes-Turn parent_store h g = elim g [ ]
  child_wakes-Turn parent_wake h g = elim g [ ]
  child_wakes-Turn parent_wake_yield h g = elim g [ ]
  child_wakes-Turn parent_done h g = elim g [ ]

  pub step_parent-Turn :
      (pa : ParentAt) (ch : ChildAt)
      → ParentTurns w pa
      → ChildWaits w ch
      → Turn (step_parent pa (at pa ch))
  unfolding step_parent parent_to store
  step_parent-Turn parent_init ch h g = parent_turn left e f tt (ChildWaits-10 w ch g)
  step_parent-Turn parent_store ch h g = parent_turn left e f refl (ChildWaits-10 w ch g)
  step_parent-Turn parent_wake ch h g = parent_wakes-Turn ch h g
  step_parent-Turn parent_wake_yield ch h g = parent_turn left e f h g
  step_parent-Turn parent_yield ch h g = elim h [ ]
  step_parent-Turn parent_wait ch h g = elim h [ ]
  step_parent-Turn parent_wait_yield ch h g = elim h [ ]
  step_parent-Turn parent_asleep ch h g = elim h [ ]
  step_parent-Turn parent_done ch h g = elim h [ ]

  pub wait_parent-Turn :
      (pa : ParentAt) (ch : ChildAt)
      → ParentWaits w pa
      → ChildTurns w ch
      → Turn (step_parent pa (at pa ch))
  unfolding step_parent parent_to
  wait_parent-Turn parent_yield ch h g = child_turn left e f tt g
  wait_parent-Turn parent_wait ch h g = elim (Bool-cases (w == 11)) [
    | inl b ↦ rw b (child_turn left e f (ground arith) g)
    | inr b ↦ rw b (child_turn left e f tt g)
  ]
  wait_parent-Turn parent_wait_yield ch h g = child_turn left e f tt g
  wait_parent-Turn parent_asleep ch h g = child_turn left e f h g
  wait_parent-Turn parent_init ch h g = elim h [ ]
  wait_parent-Turn parent_store ch h g = elim h [ ]
  wait_parent-Turn parent_wake ch h g = elim h [ ]
  wait_parent-Turn parent_wake_yield ch h g = elim h [ ]
  wait_parent-Turn parent_done ch h g = elim h [ ]

  pub step_child-Turn :
      (pa : ParentAt) (ch : ChildAt)
      → ParentWaits w pa
      → ChildTurns w ch
      → Turn (step_child ch (at pa ch))
  unfolding step_child child_to store
  step_child-Turn pa child_store h g = child_turn left e f (ParentWaits-11 w pa g h) refl
  step_child-Turn pa child_wake h g = child_wakes-Turn pa g h
  step_child-Turn pa child_wake_yield h g = child_turn left e f h g
  step_child-Turn pa child_init h g = elim g [ ]
  step_child-Turn pa child_yield h g = elim g [ ]
  step_child-Turn pa child_wait h g = elim g [ ]
  step_child-Turn pa child_wait_yield h g = elim g [ ]
  step_child-Turn pa child_asleep h g = elim g [ ]
  step_child-Turn pa child_done h g = elim g [ ]

  pub wait_child-Turn :
      (pa : ParentAt) (ch : ChildAt)
      → ParentTurns w pa
      → ChildWaits w ch
      → Turn (step_child ch (at pa ch))
  unfolding step_child child_to store
  wait_child-Turn pa child_init h g = parent_turn left e f (ParentTurns-10 w pa h) tt
  wait_child-Turn pa child_yield h g = parent_turn left e f h tt
  wait_child-Turn pa child_wait h g = elim (Bool-cases (w == 10)) [
    | inl b ↦ rw b (parent_turn left e f h (ground arith))
    | inr b ↦ rw b (parent_turn left e f h tt)
  ]
  wait_child-Turn pa child_wait_yield h g = parent_turn left e f h tt
  wait_child-Turn pa child_asleep h g = parent_turn left e f h g
  wait_child-Turn pa child_store h g = elim g [ ]
  wait_child-Turn pa child_wake h g = elim g [ ]
  wait_child-Turn pa child_wake_yield h g = elim g [ ]
  wait_child-Turn pa child_done h g = elim g [ ]
