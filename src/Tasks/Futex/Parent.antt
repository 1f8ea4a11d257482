-- ===== src/Tasks/Futex/Parent.antt =====
-- What the parent measures, and that the child never ends.
use cse.Base.{ℕ, String, ◌≡◌, true, false, [], ◌∷◌}
use cse.Base.Int.{ℤ, pos, is_zero, is_minus_one, is_negative}
use cse.Double.{Double, ◌⊘◌, of_int, to_float}
use cse.Machine.{
  int, double, Call, clock_gettime, monotonic_raw, shmget, fork, shmat, printf, waitpid, Kernel,
  Trace, Run, exited, looping, log, calls, copies,
}
use cse.Tasks.Futex.{test_count_per_process, futex_time, futex_test}

-- the line of the parent, from the time in nanoseconds of all its calls
abbrev pub time_line : {D : Type 0} ⦃d : Double D⦄ → (format : String) → (total_time : ℕ) → Call D
time_line format total_time = printf format (
    int (pos test_count_per_process)
    ∷ int (pos total_time)
    ∷ double (
        to_float
          (to_float (of_int (pos total_time)) ⊘ to_float (of_int (pos test_count_per_process))))
    ∷ [])

module _ {D : Type 0} ⦃d : Double D⦄ (k : Kernel D) where
  -- The process has exited with status 0, after a hundred thousand calls of `measured` between two readings of
  -- the clock, and the line with the time between these; the wait for the child was its last call.
  pub record Timed (child_pid : ℤ) (format : String) (measured : Call D) (run : Run D ℤ)
      : Type 0 where
    pub before : Trace D
    pub after : Trace D
    pub final : Trace D
    pub between :
        calls after
        ≡ copies test_count_per_process measured (clock_gettime monotonic_raw ∷ calls before)
    pub finished :
        calls final
        ≡ waitpid child_pid
          ∷ time_line format (
              futex_time D
                (k before (clock_gettime monotonic_raw)).time
                (k after (clock_gettime monotonic_raw)).time)
          ∷ clock_gettime monotonic_raw
          ∷ calls after
    pub result : run ≡ exited (pos 0) final

  module _ (fuel : ℕ) (format : String) (child_call measured : ℤ → Call D) (t : Trace D) where
    -- the trace once `fork` has returned, and the address of the shared word
    abbrev pub forked : Trace D
    forked = log k (log k t shmget) fork

    abbrev pub futex : ℤ
    futex = (k forked (shmat (k t shmget).value)).value

    abbrev pub NoMemory : Type 0
    NoMemory =
        (is_negative (k t shmget).value ≡ true)
        × (futex_test fuel format child_call measured k t
            ≡ exited (pos 1) (log k (log k t shmget) (printf "FAILURE shmget" [])))

    abbrev pub NoChild : Type 0
    NoChild =
        (is_negative (k t shmget).value ≡ false)
        × (is_minus_one (k (log k t shmget) fork).value ≡ true)
        × (futex_test fuel format child_call measured k t
            ≡ exited (pos 1) (log k forked (printf "FAILURE fork" [])))

    abbrev pub IsChild : Type 0
    IsChild =
        (is_zero (k (log k t shmget) fork).value ≡ true)
        × (ready final : Trace D) × (futex_test fuel format child_call measured k t ≡ looping final)
        × (calls final ≡ copies fuel (child_call futex) (calls ready))

    abbrev pub IsParent : Type 0
    IsParent =
        (is_zero (k (log k t shmget) fork).value ≡ false)
        × Timed (k (log k t shmget) fork).value format (measured futex)
            (futex_test fuel format child_call measured k t)
