-- ===== src/Overhead/ForLoop.antt =====
-- rpi3_bench/for_loop.c: the time that an empty loop takes.
use cse.Base.{ℕ, not, [], ◌∷◌, if◌then◌else◌}
use cse.Base.Int.{ℤ, pos, negsuc, is_zero}
use cse.Double.{Double, ◌⊖◌, ◌⊘◌, of_int}
use cse.Machine.{
  int, double, clock_gettime, monotonic_raw, M, pure, ◌>>=◌, ◌>>◌, ask, print, repeat,
}
use cse.Common.{get_time_overhead}
use cse.Common.Setup.{init_test}
use cse.Common.Time.{timespec_diff_to_nsecs}

abbrev pub test_count : ℕ
test_count = 1000000

module _ {D : Type 0} ⦃d : Double D⦄ where
  -- `main` behind `init_test`
  unfoldable pub measure : M D ℤ
  measure = do
    start ← ask (clock_gettime monotonic_raw)
    repeat test_count (pure tt)
    stop ← ask (clock_gettime monotonic_raw)
    let total_time = timespec_diff_to_nsecs start.time stop.time ⊖ of_int (pos get_time_overhead)
    print "FOR loop latency: %f ns with %u iterations\n"
        (double (total_time ⊘ of_int (pos test_count)) ∷ int (pos test_count) ∷ [])
    pure (pos 0)

  unfoldable pub main : M D ℤ
  main = do
    status ← init_test
    if not (is_zero status) then (do print "init_test" []; pure (negsuc 0)) else measure
