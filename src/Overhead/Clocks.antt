-- ===== src/Overhead/Clocks.antt =====
-- rpi3_bench/clock_gettime.c: the time between two readings, for each clock of the system.
pub mod Samples
pub mod Lines
pub mod Whole
use cse.Base.{ℕ, zero, suc, String, not, ◌||◌, List, [], ◌∷◌, if◌then◌else◌, replicate, set}
use cse.Base.Int.{ℤ, pos, negsuc, is_zero}
use cse.Double.{Double, of_int, to_uint}
use cse.Machine.{
  Clock, realtime, realtime_coarse, monotonic, monotonic_raw, monotonic_coarse, process_cputime_id,
  thread_cputime_id, Timespec, double, clock_gettime, M, pure, and_then, ◌>>=◌, ◌>>◌, ask, print,
  of_option, write,
}
use cse.Common.Setup.{init_test}
use cse.Common.Time.{elapsed}
use cse.Common.Stats.{Qsort, get_median}

-- how a function ends whose failures return early with -1
pub data Sampled (D : Type 0) : Type 0 where
  sampled : List D → Sampled D
  failed : Sampled D

abbrev pub clock_test_count : ℕ
clock_test_count = 10000

-- unsigned int diff = BILLION * (stop.tv_sec - start.tv_sec) + stop.tv_nsec - start.tv_nsec;
unfoldable pub clock_diff : (D : Type 0) ⦃d : Double D⦄ → (start stop : Timespec) → ℕ
clock_diff D start stop = to_uint (elapsed {D = D} start stop)

module _ {D : Type 0} ⦃d : Double D⦄ where
  -- One of the seven loops of `measure_clocks`. The second reading is made only if the first one
  -- succeeds; a reading that fails ends the loop.
  unfoldable pub sample_clock :
      Clock → (rounds result_array_idx : ℕ) → (result_array : List D) → M D (Sampled D)
  sample_clock clock zero result_array_idx result_array = pure (sampled result_array)
  sample_clock clock (suc rounds) result_array_idx result_array = do
    start ← ask (clock_gettime clock)
    if not (is_zero start.value) then pure failed else do
      stop ← ask (clock_gettime clock)
      if not (is_zero stop.value) then pure failed else do
        filled ←
            write result_array result_array_idx (of_int (pos (clock_diff D start.time stop.time)))
        sample_clock clock rounds (suc result_array_idx) filled

  -- The loop, the message and the early return for one clock; `continue` is what follows.
  unfoldable pub measure_clock :
      Qsort ℤ
      → Clock
      → (failure format : String) → (result_array : List D) → (List D → M D ℤ)
      → M D ℤ
  measure_clock qsort clock failure format result_array continue = do
    outcome ← sample_clock clock clock_test_count 0 result_array
    elim outcome [
      | failed ↦ (do print failure []; pure (negsuc 0))
      | sampled result_array' ↦ (do
        (median, sorted) ← of_option (get_median qsort result_array' clock_test_count)
        print format (double median ∷ [])
        continue sorted)
    ]

  -- `garbage` is what the array holds at first.
  unfoldable pub measure_clocks : Qsort ℤ → (garbage : D) → M D ℤ
  measure_clocks qsort garbage =
      measure_clock qsort realtime "CLOCK_REALTIME clock_gettime" "CLOCK_REALTIME: %f ns\n"
        (replicate clock_test_count garbage)
        λ a.
          measure_clock qsort realtime_coarse "CLOCK_REALTIME_COARSE clock_gettime"
            "CLOCK_REALTIME_COARSE: %f ns\n" a
            λ b.
              measure_clock qsort monotonic "CLOCK_MONOTONIC clock_gettime"
                "CLOCK_MONOTONIC: %f ns\n" b
                λ c.
                  measure_clock qsort monotonic_raw "CLOCK_MONOTONIC_RAW clock_gettime"
                    "CLOCK_MONOTONIC_RAW: %f ns\n" c
                    λ e.
                      measure_clock qsort monotonic_coarse "CLOCK_MONOTONIC_COARSE clock_gettime"
                        "CLOCK_MONOTONIC_COARSE: %f ns\n" e
                        λ f.
                          measure_clock qsort process_cputime_id
                            "CLOCK_PROCESS_CPUTIME_ID clock_gettime"
                            "CLOCK_PROCESS_CPUTIME_ID: %f ns\n" f
                            λ g.
                              measure_clock qsort thread_cputime_id
                                "CLOCK_THREAD_CPUTIME_ID clock_gettime"
                                "CLOCK_THREAD_CPUTIME_ID: %f ns\n" g λ _. pure (pos 0)

  unfoldable pub main : Qsort ℤ → (garbage : D) → M D ℤ
  main qsort garbage = do
    status ← init_test
    if not (is_zero status) then (do print "init_test" []; pure (negsuc 0)) else do
      outcome ← measure_clocks qsort garbage
      if not (is_zero outcome)
          then (do print "measure_clocks" []; pure (negsuc 0))
          else pure (pos 0)
