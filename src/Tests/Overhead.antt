-- ===== src/Tests/Overhead.antt =====
-- The programs that measure overheads, at concrete inputs.
use cse.Base.{refl, ◌≡◌, ◌⊎◌, [], arith}
use cse.Base.Int.{ℤ, negsuc, pos}
use cse.Double.Milli.{Milli, milli_double, Milli-IsExact}
use cse.Machine.{exited, exit_failure, log, printf, Ends, Trace, done, sys_gettid, getpid, Reply}
use cse.Overhead.SystemCall
use cse.Overhead.SystemCall.Whole.{Compared, Averaged, main-Averaged}
use cse.Tests.Started.{set_up, steady_started}
use cse.Overhead.Clocks
use cse.Common.Setup.{init_test}
use cse.Overhead.Rand
use cse.Overhead.Rand.Whole.{Drawn, main-Drawn}
use cse.Overhead.Resolutions
use cse.Overhead.Resolutions.Exact.{Lines, clocks, main-Lines}
use cse.Common.Stats.{Qsort}
use cse.Overhead.Procedure.{double_compare}
use cse.Tests.Kernels.{steady}

main-Averaged_example :
    (t1 t2 t3 t4 : Trace Milli) × (cse.Overhead.SystemCall.main steady [] ≡ done (pos 0) t4)
    × Compared steady "syscall(SYS_gettid) call count %u latency = %f ns\n" sys_gettid
        (set_up steady)
        t1
    × Averaged steady "syscall(SYS_gettid) syscall average latency: %f ns\n\n" sys_gettid t1 t2
    × Compared steady "system call wrapper getpid() call count %u latency = %f ns\n" getpid t2 t3
    × Averaged steady "getpid syscall wrapper average latency: %f ns\n\n" getpid t3 t4
main-Averaged_example = main-Averaged steady [] (set_up steady) steady_started

-- every clock ticks each nanosecond
abbrev fine : Reply
fine = record {
  value = pos 0;
  time = record { tv_sec = pos 0; tv_nsec = pos 1 };
  cpu_min = 0;
  cpu_max = 0;
  frequency = 0;
}

main-Lines_example :
    Ends {D = Milli}
      (λ status t'. (status ≡ pos 0) × Lines (λ t c. fine) clocks [] t')
      (cse.Overhead.Resolutions.main (λ t c. fine) [])
main-Lines_example =
    main-Lines Milli-IsExact (λ t c. fine) (λ t c. (0, 1, omega arith, omega arith, refl)) []

abbrev leave_doubles : Qsort Milli
leave_doubles compare xs = xs

abbrev leave_ints : Qsort ℤ
leave_ints compare xs = xs

main-Drawn_example :
    (t0 t' : Trace Milli) × (((init_test steady [] ≡ done (negsuc 0) t0)
        × (cse.Overhead.Rand.main steady []
            ≡ exited exit_failure (log steady t0 (printf "FAILURE init_test" []))))
      ⊎ ((init_test steady [] ≡ done (pos 0) t0)
          × (cse.Overhead.Rand.main steady [] ≡ done (pos 0) t')
          × Drawn steady t0 t'))
main-Drawn_example = main-Drawn steady []
