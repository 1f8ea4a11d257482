-- ===== src/Overhead/Resolutions.antt =====
-- rpi3_bench/hpet_clock_resolutions.c: the resolution of each clock.
pub mod Exact
use cse.Base.{String, [], ◌∷◌}
use cse.Base.Int.{ℤ, pos}
use cse.Double.{Double, ◌⊕◌, ◌⊗◌, of_int, to_ullong}
use cse.Machine.{
  Clock, realtime, realtime_coarse, monotonic, monotonic_raw, monotonic_coarse, process_cputime_id,
  thread_cputime_id, Timespec, int, clock_getres, M, pure, and_then, ◌>>=◌, ◌>>◌, ask, print,
}
use cse.Common.{billion}
use cse.Base.{ℕ}

-- uint64_t ns = BILLION * clk_res.tv_sec + clk_res.tv_nsec;
unfoldable pub resolution : (D : Type 0) ⦃d : Double D⦄ → Timespec → ℕ
resolution D clk_res = to_ullong {D = D} (billion ⊗ of_int clk_res.tv_sec ⊕ of_int clk_res.tv_nsec)

module _ {D : Type 0} ⦃d : Double D⦄ where
  unfoldable pub print_resolution : Clock → (format : String) → M D (Unit {0})
  print_resolution clock format = do
    clk_res ← ask (clock_getres clock)
    print format (int (pos (resolution D clk_res.time)) ∷ [])

  unfoldable pub main : M D ℤ
  main = do
    print_resolution realtime "CLOCK_REALTIME clock resolution: %llu nanoseconds\n"
    print_resolution realtime_coarse "CLOCK_REALTIME_COARSE clock resolution: %llu nanoseconds\n"
    print_resolution monotonic "CLOCK_MONOTONIC clock resolution: %llu nanoseconds\n"
    print_resolution monotonic_raw "CLOCK_MONOTONIC_RAW clock resolution: %llu nanoseconds\n"
    print_resolution monotonic_coarse "CLOCK_MONOTONIC_COARSE clock resolution: %llu nanoseconds\n"
    print_resolution process_cputime_id
        "CLOCK_PROCESS_CPUTIME_ID clock resolution: %llu nanoseconds\n"
    print_resolution thread_cputime_id
        "CLOCK_THREAD_CPUTIME_ID clock resolution: %llu nanoseconds\n"
    pure (pos 0)
