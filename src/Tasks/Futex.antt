-- ===== src/Tasks/Futex.antt =====
-- rpi3_bench/futex_wait.c and rpi3_bench/futex_wake.c: the time that FUTEX_WAIT and FUTEX_WAKE take.
-- The files have the same text but for the two system calls and the message.
pub mod Parent
use cse.Base.{ℕ, zero, suc, ◌+◌, ◌*◌, String, [], ◌∷◌, if◌then◌else◌}
use cse.Base.Int.{ℤ, pos, negsuc, is_zero, is_minus_one, is_negative}
use cse.Double.{Double, ◌⊖◌, ◌⊗◌, ◌⊘◌, of_int, to_ullong, to_float}
use cse.Machine.{
  Timespec, int, double, clock_gettime, monotonic_raw, shmget, fork, shmat, store, futex_wait,
  futex_wake, waitpid, Call, M, looping, pure, and_then, ◌>>=◌, ◌>>◌, ask, call, value_of, print,
  exit, exit_failure, repeat,
}
use cse.Common.{get_time_overhead, for_loop_overhead}
use cse.Common.Setup.{set_process_cpu_and_freq}
use cse.Common.Time.{elapsed}

abbrev pub test_count_per_process : ℕ
test_count_per_process = 100000

unfoldable pub futex_time : (D : Type 0) ⦃d : Double D⦄ → (start stop : Timespec) → ℕ
futex_time D start stop = to_ullong (
    elapsed {D = D} start stop
    ⊖ of_int (pos get_time_overhead)
    ⊖ of_int (pos test_count_per_process) ⊗ for_loop_overhead)

-- while(1) { c; }, with fuel
unfoldable pub forever : {D : Type 0} → (fuel : ℕ) → Call D → M D ℤ
forever zero c = λ k t. looping t
forever (suc fuel) c = do call c; forever fuel c

module _ {D : Type 0} ⦃d : Double D⦄ where
  -- the child
  unfoldable pub child : (fuel : ℕ) → (child_call : Call D) → M D ℤ
  child fuel child_call = do _ ← set_process_cpu_and_freq 2; forever fuel child_call

  -- the parent
  unfoldable pub parent : (child_pid : ℤ) → (format : String) → (measured : Call D) → M D ℤ
  parent child_pid format measured = do
    _ ← set_process_cpu_and_freq 3
    start ← ask (clock_gettime monotonic_raw)
    repeat test_count_per_process (call measured)
    stop ← ask (clock_gettime monotonic_raw)
    let total_time = futex_time D start.time stop.time
    print format (
        int (pos test_count_per_process)
        ∷ int (pos total_time)
        ∷ double (
            to_float
              (to_float (of_int (pos total_time)) ⊘ to_float (of_int (pos test_count_per_process))))
        ∷ [])
    call (waitpid child_pid)
    exit (pos 0)

  -- `main` of both programs
  unfoldable pub futex_test :
      (fuel : ℕ) → (format : String) → (child_call measured : (futex : ℤ) → Call D) → M D ℤ
  futex_test fuel format child_call measured = do
    shm_id ← value_of shmget
    if is_negative shm_id then (do print "FAILURE shmget" []; exit exit_failure) else do
      child_pid ← value_of fork
      if is_minus_one child_pid then (do print "FAILURE fork" []; exit exit_failure) else do
        futex ← value_of (shmat shm_id)
        call (store futex 10)
        if is_zero child_pid
            then child fuel (child_call futex)
            else parent child_pid format (measured futex)

  unfoldable pub futex_wait_main : (fuel : ℕ) → M D ℤ
  futex_wait_main fuel =
      futex_test fuel "%i FUTEX_WAIT system calls in %lluns (%.1fns per FUTEX_WAIT system calls)\n"
        (λ futex. futex_wake futex 1) (λ futex. futex_wait futex 10)

  unfoldable pub futex_wake_main : (fuel : ℕ) → M D ℤ
  futex_wake_main fuel =
      futex_test fuel "%i FUTEX_WAIT system calls in %lluns (%.1fns per FUTEX_WAKE system calls)\n"
        (λ futex. futex_wait futex 10) (λ futex. futex_wake futex 1)
