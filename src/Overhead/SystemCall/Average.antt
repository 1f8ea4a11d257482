-- ===== src/Overhead/SystemCall/Average.antt =====
-- What the averages of system_call_overhead.c are averages of.
use cse.Base.{◌≡◌, refl, String, [], ◌∷◌}
use cse.Base.Int.{negsuc}
use cse.Double.{Double}
use cse.Machine.{
  double, clock_gettime, monotonic_raw, printf, Call, Kernel, Trace, done, log, calls, copies,
  repeat-call,
}
use cse.Common.Setup.{init_test}
use cse.Overhead.SystemCall.{avg_test_count, average_time, average_calls, main}

module _ {D : Type 0} ⦃d : Double D⦄ (k : Kernel D) (t : Trace D) where
  -- `print_avg_syscall` and `print_average_syscall` end after exactly a million calls between two
  -- readings of the clock, and print the average that these readings give, less the overheads.
  pub average_calls-copies :
      (format : String) (measured : Call D)
      → (after : Trace D) × (average_calls format measured k t
          ≡ done tt (
              log k (log k after (clock_gettime monotonic_raw)) (
                printf format (
                  double (
                    average_time
                      (k t (clock_gettime monotonic_raw)).time
                      (k after (clock_gettime monotonic_raw)).time)
                  ∷ []))))
        × (calls after ≡ copies avg_test_count measured (clock_gettime monotonic_raw ∷ calls t))
  unfolding average_calls calls
  average_calls-copies format measured =
      let (after, e, f) =
        repeat-call k measured avg_test_count (log k t (clock_gettime monotonic_raw)) in
      (after, rw e refl, f)

  -- If `init_test` fails, `main` measures nothing: it prints a message and returns -1.
  pub main-refused :
      (t' : Trace D)
      → init_test k t ≡ done (negsuc 0) t'
      → main k t ≡ done (negsuc 0) (log k t' (printf "FAILURE init_test" []))
  unfolding main
  main-refused t' e = rw e refl
