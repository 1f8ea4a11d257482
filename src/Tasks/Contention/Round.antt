-- ===== src/Tasks/Contention/Round.antt =====
-- One round of the loop of `main` of file_contention.c: its calls.
use cse.Base.{ℕ, ◌+◌, ◌≡◌, refl, zero, suc, ◌∙◌, ap, true, false, String, List, [], ◌∷◌, arith}
use cse.Base.Int.{ℤ, pos, is_zero, is_minus_one}
use cse.Double.{◌⊖◌, ◌⊗◌, ◌⊘◌, of_int, Double}
use cse.Common.{get_time_overhead, for_loop_overhead}
use cse.Common.Time.{timespec_diff_to_nsecs}
use cse.Machine.{
  free, double, int, Value, Call, clock_gettime, monotonic_raw, system, posix_memalign, open_file,
  pthread_create, pthread_barrier_init, pthread_barrier_wait, usleep, printf, Kernel, Trace, log,
  calls, Ends,
}
use cse.Tasks.Contention.{block_size, measure_read_time, start_and_measure}
use cse.Tasks.Contention.Sequence.{sequence, flush, allocated, measure_fc_access-sequence}

-- The system commands succeed, the files can be opened, memory is found, and barriers and threads can be made.
pub record IsReady {D : Type 0} (k : Kernel D) : Type 0 where
  pub commands_ok :
      (t : Trace D) (command : String) (args : List (Value D))
      → is_zero (k t (system command args)).value ≡ true
  pub opens : (t : Trace D) (name : String) → is_minus_one (k t (open_file name)).value ≡ false
  pub found : (t : Trace D) → is_zero (k t (posix_memalign block_size block_size)).value ≡ false
  pub barriers : (t : Trace D) (count : ℕ) → is_zero (k t (pthread_barrier_init count)).value ≡ true
  pub starts : (t : Trace D) (i : ℕ) → is_zero (k t (pthread_create i)).value ≡ true

-- the line that a round prints
abbrev pub time_line : {D : Type 0} ⦃d : Double D⦄ → (time : D) → (i : ℕ) → Call D
time_line time i =
    printf "%d threads, %d MB: %.2f us/block\n" (
      int (pos (i + 1)) ∷ int (pos 32) ∷ double (time ⊘ of_int (pos 1000) ⊘ of_int (pos 8192)) ∷ [])

-- the calls of one round of the loop up to its reads
abbrev pub up_to_reads : {D : Type 0} → (i : ℕ) → List (Call D) → List (Call D)
up_to_reads i cs =
    clock_gettime monotonic_raw
    ∷ posix_memalign block_size block_size
    ∷ flush
    ∷ usleep 500
    ∷ pthread_barrier_wait (pos i)
    ∷ pthread_create i
    ∷ printf "Starting thread %d\n" (int (pos i) ∷ [])
    ∷ pthread_barrier_init 2
    ∷ cs

module _ {D : Type 0} ⦃d : Double D⦄ (k : Kernel D) (fd : ℤ) where
  -- what `measure_fc_access` returns for 8192 blocks, between two traces
  abbrev pub read_time : (before after : Trace D) → D
  read_time before after =
      timespec_diff_to_nsecs (k before (clock_gettime monotonic_raw)).time
        (k after (clock_gettime monotonic_raw)).time
      ⊖ of_int (pos 8192) ⊗ for_loop_overhead
      ⊖ of_int (pos get_time_overhead)

  -- A round has made its barrier and its thread and met the thread at the barrier; then it has read the 8192
  -- blocks from the first to the last between two readings of the clock, with empty caches, and has printed
  -- its line. It has made no other calls.
  pub record Round (i : ℕ) (t t' : Trace D) : Type 0 where
    pub before : Trace D
    pub after : Trace D
    pub buf : ℤ
    pub prepared : clock_gettime monotonic_raw ∷ calls before ≡ up_to_reads i (calls t)
    pub between : calls after ≡ sequence fd 8192 0 (clock_gettime monotonic_raw ∷ calls before)
    pub finished :
        calls t'
        ≡ time_line (read_time before after) i
          ∷ free buf
          ∷ clock_gettime monotonic_raw
          ∷ calls after

  -- the first `i` rounds
  abbrev pub Rounds : ℕ → Trace D → Trace D → Type 0
  Rounds zero t t' = t' ≡ t
  Rounds (suc i) t t' = (u : Trace D) × Rounds i t u × Round i u t'

  pub Round-calls :
      (i : ℕ) (t t' : Trace D)
      → Round i t t'
      → (time : D) × (buf : ℤ) × (calls t'
          ≡ time_line time i
            ∷ free buf
            ∷ clock_gettime monotonic_raw
            ∷ sequence fd 8192 0 (up_to_reads i (calls t)))
  Round-calls i t t' r = (
    read_time r.before r.after,
    r.buf,
    r.finished
        ∙ ap
            (λ cs.
              time_line (read_time r.before r.after) i
              ∷ free r.buf
              ∷ clock_gettime monotonic_raw
              ∷ cs)
            (r.between ∙ ap (sequence fd 8192 0) r.prepared),
  )

  pub start_and_measure-Round :
      IsReady k → (i : ℕ) (t : Trace D) → Ends (λ _ t'. Round i t t') (start_and_measure fd i k t)
  unfolding start_and_measure measure_read_time calls
  start_and_measure-Round ready i t =
      let s3 =
        log k (log k t (pthread_barrier_init 2))
          (printf "Starting thread %d\n" (int (pos i) ∷ [])) in
      let u =
        log k (log k (log k s3 (pthread_create i)) (pthread_barrier_wait (pos i))) (usleep 500) in
      let (after, e, run) =
        measure_fc_access-sequence k fd 8192 u (omega arith) (ready.commands_ok u _ _)
          (ready.found (log k u flush)) in
      rw (ready.barriers t 2, ready.starts s3 i, run)
        (
          tt,
          _,
          refl,
          record {
            before = allocated k fd 8192 u;
            after = after;
            buf = (k (log k u flush) (posix_memalign block_size block_size)).value;
            prepared = refl;
            between = e;
            finished = refl;
          },
        )
