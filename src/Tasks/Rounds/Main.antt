-- ===== src/Tasks/Rounds/Main.antt =====
-- The two programs of the context switch as a whole, under the answers of the machine of `Tasks.Switch`.
use cse.Base.{ℕ, ◌≤◌, ◌≡◌, refl, ◌∙◌, ◌⊎◌, true, false, List, [], ◌∷◌, length, ◌/◌, String}
use cse.Base.Int.{ℤ, pos, is_zero, is_minus_one, is_negative}
use cse.Double.{Double}
use cse.Machine.{
  int, clock_gettime, monotonic_raw, shmget, shmat, fork, pthread_create, store as store_call,
  printf, wait_child, waitpid, Call, Kernel, Trace, done, exited, log, repeat,
}
use cse.Common.Setup.{init_test}
use cse.Common.Time.{nsecs_to_cycles}
use cse.Tasks.Switch.{
  parent_store, parent_done, ChildAt, child_init, child_yield, parent_loop, per_thread_test_count,
  Move, run, start,
}
use cse.Tasks.Switch.Alternate.{start-Turn, run-keeps}
use cse.Tasks.Rounds.{
  parent_round, thread_main, process_main, switch_time, get_total_context_switches,
}
use cse.Tasks.Rounds.History.{Answer, Replays, after, parent_history}
use cse.Tasks.Rounds.ParentRest.{repeat-parent_rest}
use cse.Tasks.Rounds.ParentRun.{parent_run}

-- A run of the machine from the start of the program: `earlier` takes the parent to the head of its loop,
-- and `later` to the end.
pub record Whole (child : ChildAt) (fuel : ℕ) (earlier later : List Move) (word : ℕ) : Type 0 where
  pub begins : (child ≡ child_yield) ⊎ (child ≡ child_init)
  pub enough : length later ≤ fuel
  pub at_loop : (run earlier (start child word per_thread_test_count)).parent ≡ parent_store
  pub rounds_left :
      (run earlier (start child word per_thread_test_count)).parent_rounds ≡ per_thread_test_count
  pub ends : (run later (run earlier (start child word per_thread_test_count))).parent ≡ parent_done

-- what the parent calls in its loop, and the answers of the machine
abbrev pub loop_history :
    {D : Type 0}
    → (futex : ℤ) → ChildAt
    → (earlier later : List Move) → (word : ℕ) → List (Answer D)
loop_history futex child earlier later word =
    parent_history futex later (run earlier (start child word per_thread_test_count))

loop-Replays :
    {D : Type 0} (k : Kernel D) (futex : ℤ) (child : ChildAt) (fuel : ℕ) (earlier later : List Move)
    (word : ℕ) (t : Trace D)
    → Whole child fuel earlier later word
    → Replays k (loop_history futex child earlier later word) t
    → repeat per_thread_test_count (parent_round fuel futex) k t
      ≡ done tt (after k (loop_history futex child earlier later word) t)
unfolding parent_loop
loop-Replays k futex child fuel earlier later word t whole replays =
    let s = run earlier (start child word per_thread_test_count) in
    let turn =
      run-keeps earlier (start child word per_thread_test_count)
        (start-Turn child word 99999 whole.begins) in
    let first : parent_loop per_thread_test_count ≡ parent_store = refl in
    repeat-parent_rest k futex fuel per_thread_test_count fuel t
    ∙ rw (whole.at_loop, whole.rounds_left, first) refl
    ∙ parent_run k futex fuel later s fuel t whole.enough whole.enough turn whole.ends replays

abbrev pub clock : {D : Type 0} → Call D
clock = clock_gettime monotonic_raw

-- the last message of each program, by the total in nanoseconds
abbrev pub report : (D : Type 0) ⦃d : Double D⦄ → (format : String) → (total_time : ℕ) → Call D
report D format total_time =
    let total_cycles = nsecs_to_cycles D total_time in
    printf format (
      int (pos get_total_context_switches)
      ∷ int (pos total_cycles)
      ∷ int (pos (total_cycles / get_total_context_switches))
      ∷ [])

module _ {D : Type 0} ⦃d : Double D⦄ (k : Kernel D) (fuel : ℕ) (earlier later : List Move)
    (word : ℕ) (t t0 : Trace D) where
  -- thread_context_switch.c: the address of the word, and the traces before and behind its loop
  abbrev pub thread_futex : ℤ
  thread_futex = (k (log k t0 shmget) (shmat (k t0 shmget).value)).value

  abbrev pub thread_shared : Trace D
  thread_shared = log k (log k t0 shmget) (shmat (k t0 shmget).value)

  abbrev pub thread_ready : Trace D
  thread_ready = log k (log k thread_shared (pthread_create 0)) (store_call thread_futex 10)

  abbrev pub thread_after : Trace D
  thread_after =
      after k (loop_history thread_futex child_yield earlier later word) (log k thread_ready clock)

  -- If `init_test` succeeds and the thread can be created, and the kernel answers the calls of the loop as
  -- the machine's futex does under a schedule that ends both sides, `main` of thread_context_switch.c
  -- returns 0. Between its two readings of the clock it has made the calls of the parent in the machine, in
  -- the same order, and no others; then it prints what it computes from the time between them, and waits.
  pub thread_main-history :
      init_test k t ≡ done (pos 0) t0
      → is_zero (k thread_shared (pthread_create 0)).value ≡ true
      → Whole child_yield fuel earlier later word
      → Replays k
          (loop_history thread_futex child_yield earlier later word)
          (log k thread_ready clock)
      → thread_main fuel k t
        ≡ done (pos 0) (
            log k
              (log k (log k thread_after clock) (
                report D
                  "%i THREAD context switches in %llu cycles (%llu cycles per context switch)\n"
                  (switch_time D (k thread_ready clock).time (k thread_after clock).time)))
              wait_child)
  unfolding thread_main
  thread_main-history started created whole replays =
      rw
        (
          started,
          created,
          loop-Replays k thread_futex child_yield fuel earlier later word (log k thread_ready clock)
              whole replays,
        )
        refl

  -- process_context_switch.c, likewise
  abbrev pub process_forked : Trace D
  process_forked = log k (log k t0 shmget) fork

  abbrev pub process_futex : ℤ
  process_futex = (k process_forked (shmat (k t0 shmget).value)).value

  abbrev pub process_ready : Trace D
  process_ready =
      log k (log k process_forked (shmat (k t0 shmget).value)) (store_call process_futex 10)

  abbrev pub process_after : Trace D
  process_after =
      after k (loop_history process_futex child_init earlier later word) (log k process_ready clock)

  abbrev pub process_total : ℕ
  process_total = switch_time D (k process_ready clock).time (k process_after clock).time

  -- If `init_test` succeeds and there are shared memory and a child, and the kernel answers the calls of the
  -- loop as the machine's futex does under a schedule that ends both sides, the parent of
  -- process_context_switch.c exits with status 0. Between its two readings of the clock it has made the calls
  -- of the parent in the machine, in the same order, and no others; then it prints the time between them,
  -- less the overheads, and what it computes from it, and waits for the child.
  pub process_main-history :
      init_test k t ≡ done (pos 0) t0
      → is_negative (k t0 shmget).value ≡ false
      → is_minus_one (k (log k t0 shmget) fork).value ≡ false
      → is_zero (k (log k t0 shmget) fork).value ≡ false
      → Whole child_init fuel earlier later word
      → Replays k
          (loop_history process_futex child_init earlier later word)
          (log k process_ready clock)
      → process_main fuel k t
        ≡ exited (pos 0) (
            log k
              (log k
                (log k (log k process_after clock) (printf "%llu\n" (int (pos process_total) ∷ [])))
                (report D
                  "%i PROCESS context switches in %llu cycles (%llu cycles per context switch)\n"
                  process_total))
              (waitpid (k (log k t0 shmget) fork).value))
  unfolding process_main
  process_main-history started memory forked_ok is_parent whole replays =
      rw
        (
          started,
          memory,
          forked_ok,
          is_parent,
          loop-Replays k process_futex child_init fuel earlier later word
              (log k process_ready clock) whole replays,
        )
        refl
