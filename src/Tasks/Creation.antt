-- ===== src/Tasks/Creation.antt =====
-- rpi3_bench/task_creation.c: the time to create a thread or a process.
pub mod Children
pub mod Batches
pub mod Lines
pub mod Whole
use cse.Base.{ℕ, String, [], ◌∷◌, List, set, replicate, if◌then◌else◌}
use cse.Base.Int.{ℤ, pos, is_zero}
use cse.Double.{Double, ◌⊖◌, ◌⊘◌, of_int}
use cse.Machine.{
  Timespec, text, int, double, clock_gettime, monotonic_raw, pthread_create, fork, vfork, Call, M,
  pure, and_then, ◌>>=◌, ◌>>◌, ask, call, value_of, print, exit, assert, of_option, for_range,
  write,
}
use cse.Common.{get_time_overhead, for_loop_overhead}
use cse.Common.Setup.{init_test}
use cse.Common.Time.{timespec_diff_to_nsecs}
use cse.Common.Stats.{Qsort, get_median, get_stddev}

abbrev pub num_threads_constant : ℕ
num_threads_constant = 100

abbrev pub measurements : ℕ
measurements = 30

module _ {D : Type 0} ⦃d : Double D⦄ where
  unfoldable pub creation_time : (start end : Timespec) → (count : ℕ) → D
  creation_time start end count =
      timespec_diff_to_nsecs start end ⊘ of_int (pos count)
      ⊖ for_loop_overhead
      ⊖ of_int (pos get_time_overhead)

  unfoldable pub measure_thread_creation : (num_threads : ℕ) → M D D
  measure_thread_creation num_threads = do
    start ← ask (clock_gettime monotonic_raw)
    for_range num_threads 0 (λ i _. call (pthread_create i)) tt
    end ← ask (clock_gettime monotonic_raw)
    pure (creation_time start.time end.time num_threads)

  -- for (...) { if (!fork()) exit(0); }, and the same with `vfork`
  unfoldable pub fork_loop : (fork_call : Call D) → (num_processes : ℕ) → M D (Unit {0})
  fork_loop fork_call num_processes =
      for_range num_processes 0
        (λ _ _. do pid ← value_of fork_call; if is_zero pid then exit (pos 0) else pure tt) tt

  unfoldable pub measure_process_creation : (num_processes : ℕ) → M D D
  measure_process_creation num_processes = do
    start ← ask (clock_gettime monotonic_raw)
    fork_loop fork num_processes
    end ← ask (clock_gettime monotonic_raw)
    pure (creation_time start.time end.time num_processes)

  unfoldable pub measure_vprocess_creation : (num_processes : ℕ) → M D D
  measure_vprocess_creation num_processes = do
    start ← ask (clock_gettime monotonic_raw)
    fork_loop vfork num_processes
    end ← ask (clock_gettime monotonic_raw)
    pure (creation_time start.time end.time num_processes)

  -- Each measurement creates NUM_THREADS tasks: `num_threads` is only printed. Of the arguments of
  -- `printf` the deviation is computed first here. `garbage` is what the array holds at first.
  unfoldable pub measure_30_times :
      Qsort ℤ
      → (garbage : D) → (measure : ℕ → M D D) → (num_threads : ℕ) → (name : String) → M D (Unit {0})
  measure_30_times qsort garbage measure num_threads name = do
    measure_array ←
        for_range measurements 0
          (λ m measured. do time ← measure num_threads_constant; write measured m time)
          (replicate measurements garbage)
    std_dev ← of_option (get_stddev measure_array measurements)
    (median, _) ← of_option (get_median qsort measure_array measurements)
    print "%s (%d): std_dev = %f, median = %f\n"
        (text name ∷ int (pos num_threads) ∷ double std_dev ∷ double median ∷ [])

  -- the macros of `main`
  unfoldable pub print_threads : Qsort ℤ → (garbage : D) → (num_threads : ℕ) → M D (Unit {0})
  print_threads qsort garbage num_threads =
      measure_30_times qsort garbage measure_thread_creation num_threads "threads"

  unfoldable pub print_processes : Qsort ℤ → (garbage : D) → (num_processes : ℕ) → M D (Unit {0})
  print_processes qsort garbage num_processes =
      measure_30_times qsort garbage measure_process_creation num_processes "processes (fork)"

  unfoldable pub print_vprocesses : Qsort ℤ → (garbage : D) → (num_processes : ℕ) → M D (Unit {0})
  print_vprocesses qsort garbage num_processes =
      measure_30_times qsort garbage measure_vprocess_creation num_processes "processes (vfork)"

  unfoldable pub main : Qsort ℤ → (garbage : D) → M D ℤ
  main qsort garbage = do
    status ← init_test
    assert (is_zero status)
    print_threads qsort garbage 10
    print_threads qsort garbage 100
    print_threads qsort garbage 1000
    print_threads qsort garbage 10000
    print_threads qsort garbage 100000
    print_processes qsort garbage 100
    print_vprocesses qsort garbage 100
    pure (pos 0)
