-- ===== src/Tasks/Contention/Sequence.antt =====
-- What the main thread of file_contention.c reads, and that its other threads never return.
use cse.Base.{
  ℕ, zero, suc, ◌+◌, ◌*◌, ◌^◌, ◌≤◌, ◌≡◌, refl, true, false, String, List, [], ◌∷◌, arith,
}
use cse.Base.Int.{ℤ, pos, is_zero, is_minus_one, wrap_int_id}
use cse.Double.{Double, ◌⊖◌, ◌⊗◌, of_int}
use cse.Machine.{
  text, int, Call, clock_gettime, monotonic_raw, system, posix_memalign, pread, free, open_file,
  pthread_barrier_wait, Kernel, Trace, done, looping, log, calls, tally,
}
use cse.Common.{get_time_overhead, for_loop_overhead}
use cse.Common.Time.{timespec_diff_to_nsecs}
use cse.Tasks.Contention.{
  block_size, num_blocks_constant, read_sequence, read_forever, write_to_disk, child,
  measure_fc_access,
}

-- The reads of `n` blocks from `first` on, one after the other, after the calls `cs`.
unfoldable pub sequence : {D : Type 0} → ℤ → (n first : ℕ) → List (Call D) → List (Call D)
sequence fd zero first cs = cs
sequence fd (suc n) first cs =
    sequence fd n (suc first) (pread fd block_size (pos (first * block_size)) ∷ cs)

module _ {D : Type 0} (k : Kernel D) (fd : ℤ) where
  read_sequence-sequence :
      (n first : ℕ) (t : Trace D)
      → first + n ≤ 2 ^ 19
      → (t' : Trace D) × (read_sequence fd n first k t ≡ done tt t')
        × (calls t' ≡ sequence fd n first (calls t))
  unfolding read_sequence sequence calls
  read_sequence-sequence zero first t h = (t, refl, refl)
  read_sequence-sequence (suc n) first t h =
      let w = wrap_int_id (pos (first * block_size)) (omega arith) in
      let (t', run, e) =
        read_sequence-sequence n (suc first)
          (log k t (pread fd block_size (pos (first * block_size)))) (omega arith) in
      (t', rw w run, e)

-- the flush of the caches, the first call of `measure_fc_access`
abbrev pub flush : {D : Type 0} → Call D
flush = system "sync; echo 1 >|/proc/sys/vm/drop_caches" []

module _ {D : Type 0} ⦃d : Double D⦄ (k : Kernel D) (fd : ℤ) (num_blocks : ℕ) (t : Trace D) where
  abbrev pub allocated : Trace D
  allocated = log k (log k t flush) (posix_memalign block_size block_size)

  -- If the caches can be flushed and memory is found, `measure_fc_access` of file_contention.c reads the
  -- blocks in order, each once, between its two readings of the clock, and returns the time between them
  -- less the overheads, for up to 2 ^ 19 blocks.
  pub measure_fc_access-sequence :
      num_blocks ≤ 2 ^ 19
      → is_zero (k t flush).value ≡ true
      → is_zero (k (log k t flush) (posix_memalign block_size block_size)).value ≡ false
      → (after : Trace D) × (calls after
          ≡ sequence fd num_blocks 0 (clock_gettime monotonic_raw ∷ calls allocated))
        × (measure_fc_access fd num_blocks k t
            ≡ done
                (timespec_diff_to_nsecs
                    (k allocated (clock_gettime monotonic_raw)).time
                    (k after (clock_gettime monotonic_raw)).time
                  ⊖ of_int (pos num_blocks) ⊗ for_loop_overhead
                  ⊖ of_int (pos get_time_overhead))
                (log k
                  (log k after (clock_gettime monotonic_raw))
                  (free (k (log k t flush) (posix_memalign block_size block_size)).value)))
  unfolding measure_fc_access calls
  measure_fc_access-sequence small flushed found =
      let (after, run, e) =
        read_sequence-sequence k fd num_blocks 0 (log k allocated (clock_gettime monotonic_raw))
          (omega arith) in
      (after, e, rw (flushed, found, run) refl)

abbrev pub block_reads : {D : Type 0} → Call D → ℕ
block_reads (pread fd size offset) = 1
block_reads _ = 0

read_forever-loops :
    {D : Type 0} (k : Kernel D) (fuel : ℕ) (fd : ℤ) (t : Trace D)
    → (t' : Trace D) × (read_forever fuel fd k t ≡ looping t')
      × (tally block_reads (calls t') ≡ fuel + tally block_reads (calls t))
unfolding read_forever calls tally
read_forever-loops k zero fd t = (t, refl, omega arith)
read_forever-loops k (suc fuel) fd t =
    let (t', run, c) = read_forever-loops k fuel fd _ in (t', run, omega (arith, c))

module _ {D : Type 0} (k : Kernel D) (file_name : ℕ → String) (fuel : ℕ) (garbage : ℤ) (id : ℕ)
    (t : Trace D) where
  -- the traces of `child` once the file has been written, and once memory has been asked for
  abbrev pub written : Trace D
  written = log k t (
      system "dd if=/dev/urandom of=%s count=%d bs=4096 status=none"
        (text (file_name id) ∷ int (pos num_blocks_constant) ∷ []))

  abbrev pub asked : Trace D
  asked = log k written (posix_memalign block_size block_size)

  -- Where posix_memalign finds no memory, the test for NULL looks at what `buf` held before: if that is
  -- not 0, `child` goes on, and reads into it for as long as it has fuel.
  pub child-unallocated :
      is_zero
          (k t (
            system "dd if=/dev/urandom of=%s count=%d bs=4096 status=none"
              (text (file_name id) ∷ int (pos num_blocks_constant) ∷ []))).value
        ≡ true
      → is_zero (k written (posix_memalign block_size block_size)).value ≡ true
      → is_zero garbage ≡ false
      → is_minus_one (k asked (open_file (file_name id))).value ≡ false
      → (t' : Trace D) × (child file_name fuel garbage id k t ≡ looping t')
        × (tally block_reads (calls t') ≡ fuel + tally block_reads (calls t))
  unfolding child write_to_disk calls tally
  child-unallocated disk_ok no_memory not_null opened =
      let fd = (k asked (open_file (file_name id))).value in
      let (t', run, c) =
        read_forever-loops k fuel fd
          (log k (log k asked (open_file (file_name id))) (pthread_barrier_wait (pos id))) in
      (t', rw (disk_ok, no_memory, not_null, opened) run, omega (arith, c))
