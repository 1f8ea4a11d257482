-- ===== src/Common.antt =====
-- rpi3_bench/common.c and common.h: the constants, and in the children the functions.
pub mod Setup
pub mod Time
pub mod Stats
use cse.Base.{ℕ}
use cse.Double.{Double, decimal}

abbrev pub get_time_overhead : ℕ
get_time_overhead = 469

module _ {D : Type 0} ⦃d : Double D⦄ where
  abbrev pub billion : D
  billion = decimal 1000000000 0

  abbrev pub for_loop_overhead : D
  for_loop_overhead = decimal 583 2

  abbrev pub syscall_overhead : D
  syscall_overhead = decimal 2825 1

  abbrev pub nsec_per_cycle : D
  nsec_per_cycle = decimal 833 3

  abbrev pub rand_overhead : D
  rand_overhead = decimal 74 0
