-- ===== src/Overhead/SystemCall.antt =====
-- rpi3_bench/system_call_overhead.c: the time that a system call takes, directly and by its wrapper.
pub mod Average
pub mod Whole
use cse.Base.{ℕ, String, not, [], ◌∷◌, if◌then◌else◌}
use cse.Base.Int.{ℤ, pos, negsuc, is_zero}
use cse.Double.{Double, ◌⊖◌, ◌⊗◌, ◌⊘◌, of_int}
use cse.Machine.{
  Timespec, int, double, clock_gettime, monotonic_raw, sys_gettid, getpid, Call, M, pure, and_then,
  ◌>>=◌, ◌>>◌, ask, call, print, repeat, for_range,
}
use cse.Common.{get_time_overhead, for_loop_overhead}
use cse.Common.Setup.{init_test}
use cse.Common.Time.{elapsed}

abbrev pub avg_test_count : ℕ
avg_test_count = 1000000

abbrev pub subsequent_calls_test_count : ℕ
subsequent_calls_test_count = 10

module _ {D : Type 0} ⦃d : Double D⦄ where
  -- the loop of `compare_first_to_subsequent_syscalls` and `compare_first_to_subsequent_wrapper_call`
  unfoldable pub time_calls : (format : String) → Call D → M D (Unit {0})
  time_calls format measured = do
    for_range subsequent_calls_test_count 0
        (λ iteration_count _. do
          start ← ask (clock_gettime monotonic_raw)
          call measured
          stop ← ask (clock_gettime monotonic_raw)
          let latency = elapsed start.time stop.time ⊖ of_int (pos get_time_overhead)
          print format (int (pos iteration_count) ∷ double latency ∷ []))
        tt
    print "\n" []

  unfoldable pub compare_first_to_subsequent_syscalls : M D (Unit {0})
  compare_first_to_subsequent_syscalls =
      time_calls "syscall(SYS_gettid) call count %u latency = %f ns\n" sys_gettid

  unfoldable pub compare_first_to_subsequent_wrapper_call : M D (Unit {0})
  compare_first_to_subsequent_wrapper_call =
      time_calls "system call wrapper getpid() call count %u latency = %f ns\n" getpid

  -- the average that is printed, from the readings before and after the loop
  unfoldable pub average_time : (start stop : Timespec) → D
  average_time start stop =
      (elapsed start stop
        ⊖ of_int (pos get_time_overhead)
        ⊖ for_loop_overhead ⊗ of_int (pos avg_test_count))
      ⊘ of_int (pos avg_test_count)

  -- the body of `print_avg_syscall` and of `print_average_syscall`
  unfoldable pub average_calls : (format : String) → Call D → M D (Unit {0})
  average_calls format measured = do
    start ← ask (clock_gettime monotonic_raw)
    repeat avg_test_count (call measured)
    stop ← ask (clock_gettime monotonic_raw)
    print format (double (average_time start.time stop.time) ∷ [])

  unfoldable pub print_avg_syscall : M D (Unit {0})
  print_avg_syscall =
      average_calls "syscall(SYS_gettid) syscall average latency: %f ns\n\n" sys_gettid

  unfoldable pub print_average_syscall : M D (Unit {0})
  print_average_syscall = average_calls "getpid syscall wrapper average latency: %f ns\n\n" getpid

  unfoldable pub system_call_test : M D (Unit {0})
  system_call_test = do compare_first_to_subsequent_syscalls; print_avg_syscall

  unfoldable pub system_call_wrapper_test : M D (Unit {0})
  system_call_wrapper_test = do compare_first_to_subsequent_wrapper_call; print_average_syscall

  unfoldable pub main : M D ℤ
  main = do
    status ← init_test
    if not (is_zero status)
        then (do print "FAILURE init_test" []; pure (negsuc 0))
        else do system_call_test; system_call_wrapper_test; pure (pos 0)
