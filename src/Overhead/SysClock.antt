-- ===== src/Overhead/SysClock.antt =====
-- rpi3_bench/sys_clock_test.c: the ticks of the system's clock per second, beside CLOCKS_PER_SEC.
use cse.Base.{ℕ, [], ◌∷◌}
use cse.Base.Int.{ℤ, pos}
use cse.Machine.{int, sysconf_clk_tck, M, pure, ◌>>=◌, ◌>>◌, value_of, print}

-- the constant of POSIX
abbrev pub clocks_per_sec : ℕ
clocks_per_sec = 1000000

unfoldable pub main : {D : Type 0} → M D ℤ
main = do
  ticks ← value_of sysconf_clk_tck
  print "%d %d\n" (int ticks ∷ int (pos clocks_per_sec) ∷ [])
  pure (pos 0)
