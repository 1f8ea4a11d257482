-- ===== src/Tests/Memory.antt =====
-- The programs that measure memory, at concrete inputs.
use cse.Base.{◌⊎◌, ◌≡◌, refl, [], ◌∷◌}
use cse.Base.Int.{pos}
use cse.Double.Milli.{Milli, milli_double}
use cse.Common.Time.{timespec_diff_to_nsecs}
use cse.Double.{of_int}
use cse.Memory.PageFault
use cse.Memory.PageFault.Printed.{HasFiles, Reported, main-Reported}
use cse.Machine.{exited, fault, Trace, done, log, calls, tally, load, clock_gettime, monotonic_raw}
use cse.Memory.Mapped.{measure_access}
use cse.Memory.Mapped.Touch.{loads, measure_access-loads}
use cse.Memory.Bandwidth
use cse.Memory.Bandwidth.Rates.{Rates, NoBlock, main-Rates}
use cse.Memory.Ram
use cse.Memory.Ram.Strides.{accesses, strays}
use cse.Memory.Ram.Printed.{lines, sizes_and_powers}
use cse.Memory.Ram.Whole.{main-Sizes}
use cse.Tests.Started.{set_up, found_started}
use cse.Tests.Kernels.{number, steady, found}

-- 8192 pages: two loads
measure_access-loads_example :
    (after : Trace Milli) × (measure_access (pos 8192) 8192 steady []
      ≡ done
          (timespec_diff_to_nsecs (number (pos 0)).time (number (pos 0)).time)
          (log steady after (clock_gettime monotonic_raw)))
    × (calls after ≡ load (pos 8192) 4096 ∷ load (pos 8192) 0 ∷ clock_gettime monotonic_raw ∷ [])
unfolding loads calls
measure_access-loads_example = measure_access-loads steady (pos 8192) 8192 []

main-Rates_example :
    ((t1 t2 t3 : Trace Milli) × (cse.Memory.Bandwidth.main (pos 5) found [] ≡ done (pos 0) t3)
      × Rates found 1024 (set_up found) t1
      × Rates found 2048 t1 t2
      × Rates found 8192 t2 t3)
    ⊎ ((t' : Trace Milli) × (cse.Memory.Bandwidth.main (pos 5) found [] ≡ fault t')
        × NoBlock found t')
main-Rates_example = main-Rates found (pos 5) [] (set_up found) found_started

main-Sizes_example :
    (t' : Trace Milli) × (cse.Memory.Ram.main 9 found [] ≡ exited (pos 0) t')
    × (lines (calls t') ≡ sizes_and_powers 28 2 [])
    × (tally accesses (calls t') ≡ 2800000)
    × (strays t' ≡ 0)
unfolding calls tally lines strays
main-Sizes_example = main-Sizes found 9 [] (set_up found) (λ s size. refl) found_started

found-HasFiles : HasFiles found
found-HasFiles = record {
  opens = λ t name mode. refl;
  writes = λ t byte f. refl;
  maps = λ t size fd. refl;
  unmaps = λ t mem size. refl;
}

main-Reported_example :
    (t1 t2 t3 t4 : Trace Milli) × (cse.Memory.PageFault.main (of_int (pos 9)) found []
      ≡ done (pos 0) t4)
    × Reported found 1024 (set_up found) (done tt t1)
    × Reported found 2048 t1 (done tt t2)
    × Reported found 4096 t2 (done tt t3)
    × Reported found 8192 t3 (done tt t4)
main-Reported_example =
    main-Reported found found-HasFiles (of_int (pos 9)) [] (set_up found) found_started
