-- ===== src/Tasks/Contention/Threads.antt =====
-- rpi3_bench/file_contention.c: the main thread and the ten threads that it starts, as the steps of one
-- machine, interleaved by any schedule. Each thread is given a baton, a variable of one round of the loop of
-- `main`, with its number and a barrier for two. The calls of the source succeed; one that fails ends all.
pub mod Owns
pub mod Arrivals
pub mod Child
pub mod Refines
pub mod History
pub mod Ends
pub mod Readers
use cse.Base.{ℕ, suc, List, [], ◌∷◌, Option, none, some, ltb, if◌then◌else◌}
use mathlib.Core.Logic.{ite}
use native.Mathlib.Decide.{ℕ_discrete}
use cse.Tasks.Contention.{num_threads}

-- where `main` stands, with its counter `i`: at the head of its loop, before pthread_create, before and inside
-- pthread_barrier_wait, while it reads, and behind the loop
pub data MainAt : Type 0 where
  main_init main_create main_arrive main_waits main_measures : (i : ℕ) → MainAt
  main_done : MainAt

-- where a thread stands: not started; before it reads its number from the baton; with a file name of that
-- number, up to pthread_barrier_wait; inside; in its loop; or it has read a baton that is no more
pub data ChildAt : Type 0 where
  unborn child_starts : ChildAt
  child_named child_waits child_reads : (id : ℕ) → ChildAt
  child_lost : ChildAt

pub data Thread : Type 0 where
  main_thread : Thread
  child_thread : ℕ → Thread

-- `baton` is the `id` of the round's baton, if the round is under way; `barrier` is who waits there.
pub record State : Type 0 where
  pub main : MainAt
  pub baton : Option ℕ
  pub barrier : Option Thread
  pub children : ℕ → ChildAt

abbrev pub update : (ℕ → ChildAt) → ℕ → ChildAt → ℕ → ChildAt
update f i a j = ite (ℕ_discrete i j) a (f j)

unfoldable pub main_to : MainAt → State → State
main_to at s = record s { main = at }

unfoldable pub child_to : (j : ℕ) → ChildAt → State → State
child_to j at s = record s { children = update s.children j at }

unfoldable pub set_barrier : Option Thread → State → State
set_barrier waiting s = record s { barrier = waiting }

unfoldable pub set_baton : Option ℕ → State → State
set_baton id s = record s { baton = id }

-- pthread_barrier_wait returns in the thread that has waited
unfoldable pub wake_main : MainAt → State → State
wake_main (main_waits i) s = main_to (main_measures i) s
wake_main _ s = s

unfoldable pub wake_child : (j : ℕ) → ChildAt → State → State
wake_child j (child_waits id) s = child_to j (child_reads id) s
wake_child j _ s = s

unfoldable pub wake : Thread → State → State
wake main_thread s = wake_main s.main s
wake (child_thread j) s = wake_child j (s.children j) s

-- pthread_barrier_wait: who comes first waits, who comes second wakes the first
unfoldable pub main_arrives : (i : ℕ) → Option Thread → State → State
main_arrives i none s = main_to (main_waits i) (set_barrier (some main_thread) s)
main_arrives i (some other) s = wake other (main_to (main_measures i) (set_barrier none s))

unfoldable pub child_arrives : (j id : ℕ) → Option Thread → State → State
child_arrives j id none s = child_to j (child_waits id) (set_barrier (some (child_thread j)) s)
child_arrives j id (some other) s = wake other (child_to j (child_reads id) (set_barrier none s))

unfoldable pub step_main : MainAt → State → State
step_main (main_init i) s =
    if ltb i num_threads
    then main_to (main_create i) (set_baton (some i) (set_barrier none s))
    else main_to main_done s
step_main (main_create i) s = main_to (main_arrive i) (child_to i child_starts s)
step_main (main_arrive i) s = main_arrives i s.barrier s
step_main (main_waits i) s = s
step_main (main_measures i) s = main_to (main_init (suc i)) (set_baton none s)
step_main main_done s = s

-- the two places where a thread reads its baton, `b->id` and `b->barrier`
unfoldable pub read_id : (j : ℕ) → Option ℕ → State → State
read_id j none s = child_to j child_lost s
read_id j (some id) s = child_to j (child_named id) s

unfoldable pub read_barrier : (j id : ℕ) → Option ℕ → State → State
read_barrier j id none s = child_to j child_lost s
read_barrier j id (some _) s = child_arrives j id s.barrier s

unfoldable pub step_child : (j : ℕ) → ChildAt → State → State
step_child j child_starts s = read_id j s.baton s
step_child j (child_named id) s = read_barrier j id s.baton s
step_child j _ s = s

pub data Move : Type 0 where
  main_runs : Move
  child_runs : (j : ℕ) → Move

-- Once `main` has returned no thread runs.
unfoldable pub step_unless_done : MainAt → (j : ℕ) → State → State
step_unless_done main_done j s = s
step_unless_done _ j s = step_child j (s.children j) s

unfoldable pub step : Move → State → State
step main_runs s = step_main s.main s
step (child_runs j) s = step_unless_done s.main j s

unfoldable pub run : (schedule : List Move) → State → State
run [] s = s
run (m ∷ schedule) s = run schedule (step m s)

abbrev pub start : State
start = record { main = main_init 0; baton = none; barrier = none; children = λ j. unborn }
