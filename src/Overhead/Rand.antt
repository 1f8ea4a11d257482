-- ===== src/Overhead/Rand.antt =====
-- rpi3_bench/rand.c: the time that a call of `rand` takes.
pub mod Whole
use cse.Base.{ℕ, ◌/◌, not, [], ◌∷◌, if◌then◌else◌}
use cse.Base.Int.{ℤ, pos, is_zero}
use cse.Double.{Double, ◌⊖◌, ◌⊗◌, of_int, to_ullong}
use cse.Machine.{
  double, clock_gettime, monotonic_raw, rand, srand, time, M, pure, ◌>>=◌, ◌>>◌, ask, call,
  value_of, print, exit, exit_failure, repeat,
}
use cse.Common.{get_time_overhead, for_loop_overhead}
use cse.Common.Setup.{init_test}
use cse.Common.Time.{elapsed}

abbrev pub test_count : ℕ
test_count = 100000

module _ {D : Type 0} ⦃d : Double D⦄ where
  -- `main` behind `init_test`; the division of the total is one of integers
  unfoldable pub measure : M D ℤ
  measure = do
    seed ← value_of time
    call (srand seed)
    start ← ask (clock_gettime monotonic_raw)
    repeat test_count (call rand)
    end ← ask (clock_gettime monotonic_raw)
    let total_time = to_ullong (
        elapsed {D = D} start.time end.time
        ⊖ of_int (pos get_time_overhead)
        ⊖ for_loop_overhead ⊗ of_int (pos test_count))
    print "Overhead for calling rand(): %f\n" (double (of_int (pos (total_time / test_count))) ∷ [])
    pure (pos 0)

  unfoldable pub main : M D ℤ
  main = do
    status ← init_test
    if not (is_zero status) then (do print "FAILURE init_test" []; exit exit_failure) else measure
