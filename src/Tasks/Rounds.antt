-- ===== src/Tasks/Rounds.antt =====
-- rpi3_bench/thread_context_switch.c and rpi3_bench/process_context_switch.c as programs: what each side
-- calls, the other side being part of the system. `Tasks.Switch` has the two sides together.
pub mod Retries
pub mod Order
pub mod History
pub mod ParentRest
pub mod ParentMoves
pub mod ChildRest
pub mod ChildMoves
pub mod ParentRun
pub mod ChildRun
pub mod Refines
pub mod Main
pub mod Wakes
pub mod HandOver
use cse.Base.{ℕ, zero, suc, ◌+◌, ◌*◌, ◌/◌, Bool, not, [], ◌∷◌, if◌then◌else◌}
use cse.Base.Int.{ℤ, pos, is_zero, is_minus_one, is_negative}
use cse.Double.{Double, ◌⊖◌, ◌⊗◌, of_int, decimal, to_ullong}
use cse.Machine.{
  Timespec, int, clock_gettime, monotonic_raw, shmget, fork, shmat, store, futex_wait, futex_wake,
  sched_yield, pthread_create, wait_child, waitpid, Call, M, looping, pure, and_then, ◌>>=◌, ◌>>◌,
  ask, call, value_of, print, exit, exit_failure, repeat,
}
use cse.Common.{get_time_overhead, for_loop_overhead, syscall_overhead}
use cse.Common.Setup.{init_test}
use cse.Common.Time.{elapsed, nsecs_to_cycles}
use cse.Tasks.Switch.{per_thread_test_count}

abbrev pub per_process_test_count : ℕ
per_process_test_count = 100000

abbrev pub get_total_context_switches : ℕ
get_total_context_switches = 600000

-- the constant FUTEX_WAKE_OVERHEAD, and the expression for the total
unfoldable pub switch_time : (D : Type 0) ⦃d : Double D⦄ → (start stop : Timespec) → ℕ
switch_time D start stop = to_ullong (
    elapsed {D = D} start stop
    ⊖ of_int (pos get_time_overhead)
    ⊖ for_loop_overhead ⊗ of_int (pos per_thread_test_count)
    ⊖ decimal 38186 1 ⊗ of_int (pos per_thread_test_count)
    ⊖ syscall_overhead ⊗ of_int (pos 2) ⊗ of_int (pos per_thread_test_count))

module _ {D : Type 0} where
  -- while (!done(c)) { sched_yield(); }, with fuel
  unfoldable pub retry : (fuel : ℕ) → (is_done : ℤ → Bool) → Call D → M D (Unit {0})
  retry zero is_done c = λ k t. looping t
  retry (suc fuel) is_done c = do
    result ← value_of c
    if is_done result then pure tt else do call sched_yield; retry fuel is_done c

  unfoldable pub wait_loop : (fuel : ℕ) → (futex : ℤ) → (expected : ℕ) → M D (Unit {0})
  wait_loop fuel futex expected = retry fuel is_zero (futex_wait futex expected)

  unfoldable pub wake_loop : (fuel : ℕ) → (futex : ℤ) → M D (Unit {0})
  wake_loop fuel futex = retry fuel (λ woken. not (is_zero woken)) (futex_wake futex 1)

  -- one round of `thread`, and of the child process
  unfoldable pub child_round : (fuel : ℕ) → (futex : ℤ) → M D (Unit {0})
  child_round fuel futex = do
    call sched_yield
    wait_loop fuel futex 10
    call (store futex 11)
    wake_loop fuel futex

  unfoldable pub thread : (fuel : ℕ) → (futex : ℤ) → M D (Unit {0})
  thread fuel futex = repeat per_thread_test_count (child_round fuel futex)

  -- one round of the loop of `main`
  unfoldable pub parent_round : (fuel : ℕ) → (futex : ℤ) → M D (Unit {0})
  parent_round fuel futex = do
    call (store futex 10)
    wake_loop fuel futex
    call sched_yield
    wait_loop fuel futex 11

module _ {D : Type 0} ⦃d : Double D⦄ where
  unfoldable pub thread_main : (fuel : ℕ) → M D ℤ
  thread_main fuel = do
    status ← init_test
    if not (is_zero status) then (do print "FAILURE init_test" []; exit exit_failure) else do
      shm_id ← value_of shmget
      futex ← value_of (shmat shm_id)
      error ← value_of (pthread_create 0)
      if not (is_zero error) then exit exit_failure else do
        call (store futex 10)
        start ← ask (clock_gettime monotonic_raw)
        repeat per_thread_test_count (parent_round fuel futex)
        stop ← ask (clock_gettime monotonic_raw)
        let total_cycles = nsecs_to_cycles D (switch_time D start.time stop.time)
        print "%i THREAD context switches in %llu cycles (%llu cycles per context switch)\n" (
            int (pos get_total_context_switches)
            ∷ int (pos total_cycles)
            ∷ int (pos (total_cycles / get_total_context_switches))
            ∷ [])
        call wait_child
        pure (pos 0)

  unfoldable pub process_main : (fuel : ℕ) → M D ℤ
  process_main fuel = do
    status ← init_test
    if not (is_zero status) then (do print "FAILURE init_test" []; exit exit_failure) else do
      shm_id ← value_of shmget
      if is_negative shm_id then (do print "FAILURE shmget" []; exit exit_failure) else do
        child_pid ← value_of fork
        if is_minus_one child_pid then (do print "FAILURE fork" []; exit exit_failure) else do
          futex ← value_of (shmat shm_id)
          call (store futex 10)
          if is_zero child_pid
              then (do repeat per_process_test_count (child_round fuel futex); exit (pos 0))
              else do
                start ← ask (clock_gettime monotonic_raw)
                repeat per_process_test_count (parent_round fuel futex)
                stop ← ask (clock_gettime monotonic_raw)
                let total_time = switch_time D start.time stop.time
                print "%llu\n" (int (pos total_time) ∷ [])
                let total_cycles = nsecs_to_cycles D total_time
                print
                    "%i PROCESS context switches in %llu cycles (%llu cycles per context switch)\n"
                    (int (pos get_total_context_switches)
                      ∷ int (pos total_cycles)
                      ∷ int (pos (total_cycles / get_total_context_switches))
                      ∷ [])
                call (waitpid child_pid)
                exit (pos 0)
