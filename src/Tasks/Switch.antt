-- ===== src/Tasks/Switch.antt =====
-- rpi3_bench/thread_context_switch.c and rpi3_bench/process_context_switch.c: two threads, or two
-- processes, that wake each other in turn by a futex. Here are the loops of both sides as the steps of
-- one machine, a step for each system call or store, interleaved by any schedule. FUTEX_WAIT sleeps if
-- the word has the value it is given, and otherwise fails at once; a signal ends it with a failure.
-- FUTEX_WAKE wakes the other side if it sleeps, and returns how many it has woken.
pub mod Turns
pub mod Alternate
pub mod Finish
pub mod Rank
pub mod Fair
use cse.Base.{ℕ, zero, suc, List, [], ◌∷◌, ◌==◌, if◌then◌else◌}

abbrev pub per_thread_test_count : ℕ
per_thread_test_count = 100000

-- where the parent (the main thread) stands: before the first store, in its loop, or behind it
pub data ParentAt : Type 0 where
  parent_init : ParentAt
  parent_store parent_wake parent_wake_yield : ParentAt
  parent_yield parent_wait parent_wait_yield parent_asleep : ParentAt
  parent_done : ParentAt

-- where the child (the second thread) stands; only the child process begins with `child_init`
pub data ChildAt : Type 0 where
  child_init : ChildAt
  child_yield child_wait child_wait_yield child_asleep : ChildAt
  child_store child_wake child_wake_yield : ChildAt
  child_done : ChildAt

-- `futex` is the shared word; the rounds are those that each side has left, the current one included.
pub record State : Type 0 where
  pub futex : ℕ
  pub parent : ParentAt
  pub parent_rounds : ℕ
  pub child : ChildAt
  pub child_rounds : ℕ

-- the head of the parent's loop, and of the child's, with `rounds` left
unfoldable pub parent_loop : (rounds : ℕ) → ParentAt
parent_loop zero = parent_done
parent_loop (suc rounds) = parent_store

unfoldable pub child_loop : (rounds : ℕ) → ChildAt
child_loop zero = child_done
child_loop (suc rounds) = child_yield

-- the state once the parent's FUTEX_WAIT has returned 0 and the child's FUTEX_WAKE 1
unfoldable pub next_rounds : (futex parent_rounds child_rounds : ℕ) → State
next_rounds futex (suc p) (suc c) = record {
  futex = futex;
  parent = parent_loop p;
  parent_rounds = p;
  child = child_loop c;
  child_rounds = c;
}
next_rounds futex p c = record {
  futex = futex;
  parent = parent_done;
  parent_rounds = p;
  child = child_done;
  child_rounds = c;
}

unfoldable pub parent_to : ParentAt → State → State
parent_to at s = record {
  futex = s.futex;
  parent = at;
  parent_rounds = s.parent_rounds;
  child = s.child;
  child_rounds = s.child_rounds;
}

unfoldable pub child_to : ChildAt → State → State
child_to at s = record {
  futex = s.futex;
  parent = s.parent;
  parent_rounds = s.parent_rounds;
  child = at;
  child_rounds = s.child_rounds;
}

-- *futex = word;
unfoldable pub store : (word : ℕ) → State → State
store word s = record {
  futex = word;
  parent = s.parent;
  parent_rounds = s.parent_rounds;
  child = s.child;
  child_rounds = s.child_rounds;
}

-- FUTEX_WAKE by the parent: the child's FUTEX_WAIT returns 0 if it sleeps.
unfoldable pub parent_wakes : ChildAt → State → State
parent_wakes child_asleep s = parent_to parent_yield (child_to child_store s)
parent_wakes _ s = parent_to parent_wake_yield s

-- FUTEX_WAKE by the child
unfoldable pub child_wakes : ParentAt → State → State
child_wakes parent_asleep s = next_rounds s.futex s.parent_rounds s.child_rounds
child_wakes _ s = child_to child_wake_yield s

unfoldable pub step_parent : ParentAt → State → State
step_parent parent_init s = parent_to parent_store (store 10 s)
step_parent parent_store s = parent_to parent_wake (store 10 s)
step_parent parent_wake s = parent_wakes s.child s
step_parent parent_wake_yield s = parent_to parent_wake s
step_parent parent_yield s = parent_to parent_wait s
step_parent parent_wait s = parent_to (if s.futex == 11 then parent_asleep else parent_wait_yield) s
step_parent parent_wait_yield s = parent_to parent_wait s
step_parent parent_asleep s = s
step_parent parent_done s = s

unfoldable pub step_child : ChildAt → State → State
step_child child_init s = child_to child_yield (store 10 s)
step_child child_yield s = child_to child_wait s
step_child child_wait s = child_to (if s.futex == 10 then child_asleep else child_wait_yield) s
step_child child_wait_yield s = child_to child_wait s
step_child child_asleep s = s
step_child child_store s = child_to child_wake (store 11 s)
step_child child_wake s = child_wakes s.parent s
step_child child_wake_yield s = child_to child_wake s
step_child child_done s = s

-- a signal: a FUTEX_WAIT under way fails
unfoldable pub interrupt_parent : ParentAt → State → State
interrupt_parent parent_asleep s = parent_to parent_wait_yield s
interrupt_parent _ s = s

unfoldable pub interrupt_child : ChildAt → State → State
interrupt_child child_asleep s = child_to child_wait_yield s
interrupt_child _ s = s

pub data Move : Type 0 where
  parent_runs child_runs parent_signal child_signal : Move

unfoldable pub step : Move → State → State
step parent_runs s = step_parent s.parent s
step child_runs s = step_child s.child s
step parent_signal s = interrupt_parent s.parent s
step child_signal s = interrupt_child s.child s

unfoldable pub run : (schedule : List Move) → State → State
run [] s = s
run (m ∷ schedule) s = run schedule (step m s)

-- The thread program: `word` is what the shared word holds at first. The process program begins with
-- the child before its own store.
unfoldable pub start : (child : ChildAt) → (word rounds : ℕ) → State
start child word rounds = record {
  futex = word;
  parent = parent_init;
  parent_rounds = rounds;
  child = child;
  child_rounds = rounds;
}
