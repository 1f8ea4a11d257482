-- ===== src/Common/Time.antt =====
-- The time arithmetic of common.c, and the expression for an elapsed time that the programs write
-- out themselves.
pub mod Exact
use cse.Base.{ℕ}
use cse.Base.Int.{pos, ◌-ℤ◌}
use cse.Double.{Double, ◌⊕◌, ◌⊖◌, ◌⊗◌, ◌⊘◌, of_int, ceil, to_ullong}
use cse.Machine.{Timespec}
use cse.Common.{billion, nsec_per_cycle}

module _ {D : Type 0} ⦃d : Double D⦄ where
  unfoldable pub timespec_diff_to_nsecs : (start end : Timespec) → D
  timespec_diff_to_nsecs start end =
      of_int (end.tv_sec -ℤ start.tv_sec) ⊗ billion ⊕ of_int (end.tv_nsec -ℤ start.tv_nsec)

  -- BILLION * (stop.tv_sec - start.tv_sec) + stop.tv_nsec - start.tv_nsec
  unfoldable pub elapsed : (start stop : Timespec) → D
  elapsed start stop =
      billion ⊗ of_int (stop.tv_sec -ℤ start.tv_sec) ⊕ of_int stop.tv_nsec ⊖ of_int start.tv_nsec

unfoldable pub nsecs_to_cycles : (D : Type 0) ⦃d : Double D⦄ → (time_diff : ℕ) → ℕ
nsecs_to_cycles D time_diff = to_ullong {D = D} (ceil (of_int (pos time_diff) ⊘ nsec_per_cycle))
