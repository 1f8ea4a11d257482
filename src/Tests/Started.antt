-- ===== src/Tests/Started.antt =====
-- `init_test` on the kernels for tests.
use cse.Base.{[], ◌∷◌, ◌≡◌, refl}
use cse.Base.Int.{pos}
use cse.Double.Milli.{Milli}
use cse.Machine.{
  sched_setaffinity, cpufreq_cpu_exists, cpufreq_get_hardware_limits, cpufreq_set_frequency,
  cpufreq_get_freq_kernel, printf, int, Kernel, Trace, done, log,
}
use cse.Common.Setup.{init_test, set_process_cpu_and_freq}
use cse.Tests.Kernels.{steady, found}

-- the trace after `init_test`
abbrev pub set_up : Kernel Milli → Trace Milli
set_up k =
    log k
      (log k
        (log k
          (log k (log k (log k [] (sched_setaffinity 3)) (cpufreq_cpu_exists 3))
            (cpufreq_get_hardware_limits 3))
          (cpufreq_set_frequency 3 1200000))
        (cpufreq_get_freq_kernel 3))
      (printf "Current CPU %u Frequency: %lu MHz\n\n" (int (pos 3) ∷ int (pos 1200) ∷ []))

pub steady_started : init_test steady [] ≡ done (pos 0) (set_up steady)
unfolding init_test set_process_cpu_and_freq
steady_started = refl

pub found_started : init_test found [] ≡ done (pos 0) (set_up found)
unfolding init_test set_process_cpu_and_freq
found_started = refl
