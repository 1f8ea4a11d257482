-- ===== src/Common/Setup.antt =====
-- `init_test` of common.c: the affinity and the frequency of the CPU on which a program runs.
pub mod Laws
use cse.Base.{ℕ, ◌/◌, Bool, not, [], ◌∷◌, if◌then◌else◌}
use cse.Base.Int.{ℤ, pos, negsuc, is_zero}
use cse.Machine.{
  int, sched_setaffinity, cpufreq_cpu_exists, cpufreq_get_hardware_limits, cpufreq_set_frequency,
  cpufreq_get_freq_kernel, M, pure, and_then, ◌>>=◌, ◌>>◌, ask, call, value_of, print,
}

abbrev pub cpu_index : ℕ
cpu_index = 3

module _ {D : Type 0} where
  -- `set_process_cpu_and_freq` of futex_wait.c and futex_wake.c, the text of `init_test` with its
  -- argument in place of CPU_INDEX
  unfoldable pub set_process_cpu_and_freq : (index : ℕ) → M D ℤ
  set_process_cpu_and_freq index = do
    call (sched_setaffinity index)
    missing ← value_of (cpufreq_cpu_exists index)
    if not (is_zero missing) then (do print "Invalid CPU index!\n" []; pure (negsuc 0)) else do
      limits ← ask (cpufreq_get_hardware_limits index)
      if not (is_zero limits.value)
          then (do print "Unable to get hardware limits!\n" []; pure (negsuc 0))
          else do
            refused ← value_of (cpufreq_set_frequency index limits.cpu_max)
            if not (is_zero refused)
                then (do
                  print "Unable to set frequency(%luMHz) Are u root?\n"
                      (int (pos (limits.cpu_max / 1000)) ∷ [])
                  pure (negsuc 0))
                else do
                  current ← ask (cpufreq_get_freq_kernel index)
                  print "Current CPU %u Frequency: %lu MHz\n\n"
                      (int (pos index) ∷ int (pos (current.frequency / 1000)) ∷ [])
                  pure (pos 0)

  unfoldable pub init_test : M D ℤ
  init_test = set_process_cpu_and_freq cpu_index
