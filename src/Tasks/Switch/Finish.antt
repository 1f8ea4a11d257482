-- ===== src/Tasks/Switch/Finish.antt =====
-- From every state that can be reached both sides can still finish: neither a deadlock nor a state
-- that only retries is reached.
use cse.Base.{ℕ, zero, suc, ◌≡◌, refl, ap, ◌∙◌, ◌⊎◌, List, [], ◌∷◌, ◌++◌}
use cse.Tasks.Switch.{
  ParentAt, parent_init, parent_store, parent_wake, parent_wake_yield, parent_yield, parent_wait,
  parent_wait_yield, parent_asleep, parent_done, ChildAt, child_init, child_yield, child_wait,
  child_wait_yield, child_asleep, child_store, child_wake, child_wake_yield, child_done, State,
  parent_loop, child_loop, next_rounds, parent_to, child_to, store, parent_wakes, child_wakes,
  step_parent, step_child, Move, parent_runs, child_runs, step, run, start,
}
use cse.Tasks.Switch.Turns.{
  Turn, parent_turn, child_turn, finished, ParentTurns, ParentWaits, ChildTurns, ChildWaits,
  ChildWaits-10, ParentWaits-11,
}
use cse.Tasks.Switch.Alternate.{run-Turn}

-- A schedule ends both sides.
pub record CanFinish (s : State) : Type 0 where
  pub rest : List Move
  pub parent_ends : (run rest s).parent ≡ parent_done
  pub child_ends : (run rest s).child ≡ child_done

pub run-append : (xs ys : List Move) (s : State) → run (xs ++ ys) s ≡ run ys (run xs s)
unfolding run
run-append [] ys s = refl
run-append (m ∷ xs) ys s = run-append xs ys (step m s)

prepend : (xs : List Move) (s : State) → CanFinish (run xs s) → CanFinish s
prepend xs s f = record {
  rest = xs ++ f.rest;
  parent_ends = rw (run-append xs f.rest s) f.parent_ends;
  child_ends = rw (run-append xs f.rest s) f.child_ends;
}

abbrev pub at : (word left : ℕ) → ParentAt → ChildAt → State
at word left pa ch = record {
  futex = word;
  parent = pa;
  parent_rounds = suc left;
  child = ch;
  child_rounds = suc left;
}

-- the child is about to wake the parent
from_child_wake : (left : ℕ) → CanFinish (at 11 left parent_asleep child_wake)
unfolding run step step_parent step_child parent_wakes child_wakes next_rounds parent_loop
    child_loop parent_to child_to store
from_child_wake zero = record { rest = child_runs ∷ []; parent_ends = refl; child_ends = refl }
from_child_wake (suc left) =
    prepend
      (child_runs ∷ parent_runs ∷ child_runs ∷ child_runs ∷ parent_runs ∷ child_runs ∷ parent_runs
        ∷ parent_runs ∷ [])
      (at 11 (suc left) parent_asleep child_wake) (from_child_wake left)

-- the parent is about to wake the child
from_parent_wake : (left : ℕ) → CanFinish (at 10 left parent_wake child_asleep)
unfolding run step step_parent step_child parent_wakes parent_to child_to store
from_parent_wake left =
    prepend (parent_runs ∷ child_runs ∷ parent_runs ∷ parent_runs ∷ [])
      (at 10 left parent_wake child_asleep) (from_child_wake left)

child_to_sleep :
    (left : ℕ) (ch : ChildAt) → ChildWaits 10 ch → CanFinish (at 10 left parent_wake ch)
unfolding run step step_child child_to store
child_to_sleep left child_init h =
    prepend (child_runs ∷ child_runs ∷ child_runs ∷ []) (at 10 left parent_wake child_init)
      (from_parent_wake left)
child_to_sleep left child_yield h =
    prepend (child_runs ∷ child_runs ∷ []) (at 10 left parent_wake child_yield)
      (from_parent_wake left)
child_to_sleep left child_wait h =
    prepend (child_runs ∷ []) (at 10 left parent_wake child_wait) (from_parent_wake left)
child_to_sleep left child_wait_yield h =
    prepend (child_runs ∷ child_runs ∷ []) (at 10 left parent_wake child_wait_yield)
      (from_parent_wake left)
child_to_sleep left child_asleep h = from_parent_wake left
child_to_sleep left child_store h = elim h [ ]
child_to_sleep left child_wake h = elim h [ ]
child_to_sleep left child_wake_yield h = elim h [ ]
child_to_sleep left child_done h = elim h [ ]

parent_to_sleep :
    (left : ℕ) (pa : ParentAt) → ParentWaits 11 pa → CanFinish (at 11 left pa child_wake)
unfolding run step step_parent parent_to
parent_to_sleep left parent_yield h =
    prepend (parent_runs ∷ parent_runs ∷ []) (at 11 left parent_yield child_wake)
      (from_child_wake left)
parent_to_sleep left parent_wait h =
    prepend (parent_runs ∷ []) (at 11 left parent_wait child_wake) (from_child_wake left)
parent_to_sleep left parent_wait_yield h =
    prepend (parent_runs ∷ parent_runs ∷ []) (at 11 left parent_wait_yield child_wake)
      (from_child_wake left)
parent_to_sleep left parent_asleep h = from_child_wake left
parent_to_sleep left parent_init h = elim h [ ]
parent_to_sleep left parent_store h = elim h [ ]
parent_to_sleep left parent_wake h = elim h [ ]
parent_to_sleep left parent_wake_yield h = elim h [ ]
parent_to_sleep left parent_done h = elim h [ ]

from_parent_turn :
    (word left : ℕ) (pa : ParentAt) (ch : ChildAt)
    → ParentTurns word pa
    → ChildWaits word ch
    → CanFinish (at word left pa ch)
unfolding run step step_parent parent_to store
from_parent_turn word left parent_init ch h g =
    prepend (parent_runs ∷ parent_runs ∷ []) (at word left parent_init ch)
      (child_to_sleep left ch (ChildWaits-10 word ch g))
from_parent_turn word left parent_store ch h g =
    prepend (parent_runs ∷ []) (at word left parent_store ch)
      (child_to_sleep left ch (ChildWaits-10 word ch g))
from_parent_turn word left parent_wake ch h g =
    rw h (child_to_sleep left ch (ChildWaits-10 word ch g))
from_parent_turn word left parent_wake_yield ch h g =
    prepend (parent_runs ∷ []) (at word left parent_wake_yield ch)
      (rw h (child_to_sleep left ch (ChildWaits-10 word ch g)))
from_parent_turn word left parent_yield ch h g = elim h [ ]
from_parent_turn word left parent_wait ch h g = elim h [ ]
from_parent_turn word left parent_wait_yield ch h g = elim h [ ]
from_parent_turn word left parent_asleep ch h g = elim h [ ]
from_parent_turn word left parent_done ch h g = elim h [ ]

from_child_turn :
    (word left : ℕ) (pa : ParentAt) (ch : ChildAt)
    → ParentWaits word pa
    → ChildTurns word ch
    → CanFinish (at word left pa ch)
unfolding run step step_child child_to store
from_child_turn word left pa child_store h g =
    prepend (child_runs ∷ []) (at word left pa child_store)
      (parent_to_sleep left pa (ParentWaits-11 word pa g h))
from_child_turn word left pa child_wake h g = rw g (parent_to_sleep left pa (rw g at h))
from_child_turn word left pa child_wake_yield h g =
    prepend (child_runs ∷ []) (at word left pa child_wake_yield)
      (rw g (parent_to_sleep left pa (rw g at h)))
from_child_turn word left pa child_init h g = elim g [ ]
from_child_turn word left pa child_yield h g = elim g [ ]
from_child_turn word left pa child_wait h g = elim g [ ]
from_child_turn word left pa child_wait_yield h g = elim g [ ]
from_child_turn word left pa child_asleep h g = elim g [ ]
from_child_turn word left pa child_done h g = elim g [ ]

-- the state with its numbers of rounds replaced by equal ones
pub with_rounds :
    (s : State) (left : ℕ)
    → s.parent_rounds ≡ suc left
    → s.child_rounds ≡ suc left
    → s ≡ at s.futex left s.parent s.child
with_rounds s left e f =
    ap
      (λ p. record {
        futex = s.futex;
        parent = s.parent;
        parent_rounds = p;
        child = s.child;
        child_rounds = s.child_rounds;
      })
      e
    ∙ ap
        (λ c. record {
          futex = s.futex;
          parent = s.parent;
          parent_rounds = suc left;
          child = s.child;
          child_rounds = c;
        })
        f

Turn-CanFinish : (s : State) → Turn s → CanFinish s
unfolding run
Turn-CanFinish s (parent_turn left e f h g) =
    rw (with_rounds s left e f) (from_parent_turn s.futex left s.parent s.child h g)
Turn-CanFinish s (child_turn left e f h g) =
    rw (with_rounds s left e f) (from_child_turn s.futex left s.parent s.child h g)
Turn-CanFinish s (finished e f h g) = record { rest = []; parent_ends = h; child_ends = g }

-- After any schedule, with any signals, there is a schedule that ends both sides.
pub run-CanFinish :
    (child : ChildAt) (word left : ℕ) (schedule : List Move)
    → (child ≡ child_yield) ⊎ (child ≡ child_init)
    → CanFinish (run schedule (start child word (suc left)))
run-CanFinish child word left schedule begins =
    let (t, _) = run-Turn child word left schedule begins in
    Turn-CanFinish (run schedule (start child word (suc left))) t
