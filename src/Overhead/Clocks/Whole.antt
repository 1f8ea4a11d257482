-- ===== src/Overhead/Clocks/Whole.antt =====
-- clock_gettime.c as a whole: what it reads and prints, whatever the kernel answers.
use cse.Base.{String, List, [], ◌∷◌}
use cse.Double.{Double}
use cse.Machine.{
  Clock, realtime, realtime_coarse, monotonic, monotonic_raw, monotonic_coarse, process_cputime_id,
  thread_cputime_id,
}
use cse.Overhead.Clocks.Lines.{Entry}

abbrev pub entry : Clock → (failure format : String) → Entry
entry clock failure format = record { clock = clock; failure = failure; format = format }

-- the seven clocks in the order of the program
abbrev pub entries : List Entry
entries =
    entry realtime "CLOCK_REALTIME clock_gettime" "CLOCK_REALTIME: %f ns\n"
    ∷ entry realtime_coarse "CLOCK_REALTIME_COARSE clock_gettime" "CLOCK_REALTIME_COARSE: %f ns\n"
    ∷ entry monotonic "CLOCK_MONOTONIC clock_gettime" "CLOCK_MONOTONIC: %f ns\n"
    ∷ entry monotonic_raw "CLOCK_MONOTONIC_RAW clock_gettime" "CLOCK_MONOTONIC_RAW: %f ns\n"
    ∷ entry monotonic_coarse "CLOCK_MONOTONIC_COARSE clock_gettime"
        "CLOCK_MONOTONIC_COARSE: %f ns\n"
    ∷ entry process_cputime_id "CLOCK_PROCESS_CPUTIME_ID clock_gettime"
        "CLOCK_PROCESS_CPUTIME_ID: %f ns\n"
    ∷ entry thread_cputime_id "CLOCK_THREAD_CPUTIME_ID clock_gettime"
        "CLOCK_THREAD_CPUTIME_ID: %f ns\n"
    ∷ []
