-- ===== src/FileRead/Blocks.antt =====
-- `measure_fc_access`: between its two clock readings it reads every block once.
use cse.Base.{
  ℕ, zero, suc, ◌+◌, ◌-◌, ◌*◌, ◌^◌, ◌≤◌, ◌<◌, ◌≡◌, refl, ap, ◌∙◌, ◌⊎◌, inl, inr, Bool, true, false,
  List, [], ◌∷◌, length, take, drop, if◌then◌else◌, arith,
}
use cse.Base.Arrays.{get_elem?-some, drop-cons, take-length}
use cse.Base.Counting.{count, SameItems, upto, length-upto, count-upto}
use cse.Base.Int.{ℤ, pos, is_zero, wrap_int_id}
use cse.Double.{Double, ◌⊖◌, ◌⊗◌, of_int}
use cse.Machine.{
  Call, clock_gettime, monotonic_raw, rand, posix_memalign, pread, free, Kernel, Trace, Run, done,
  log, calls, copies,
}
use cse.Common.{get_time_overhead, for_loop_overhead}
use cse.Common.Time.{timespec_diff_to_nsecs}
use cse.FileRead.{block_size, read_blocks, timed_reads, measure_fc_access}
use cse.FileRead.Indices.{fill_indices-upto}
use cse.FileRead.Shuffle.{RandIsNonneg, shuffled_upto}

abbrev All {ℓ} : (ℕ → Type ℓ) → List ℕ → Type ℓ
All P [] = Unit
All P (x ∷ xs) = P x × All P xs

All-of-count : (n : ℕ) (xs : List ℕ) → ((a : ℕ) → 0 < count a xs → a < n) → All (λ x. x < n) xs
unfolding count
All-of-count n [] h = tt
All-of-count n (x ∷ xs) h = (h x (ground arith), All-of-count n xs (λ a c. h a (omega arith)))

-- The reads of the blocks in `order`, one after the other, before the calls `cs`.
unfoldable pub block_reads : {D : Type 0} → ℤ → (order : List ℕ) → List (Call D) → List (Call D)
block_reads fd [] cs = cs
block_reads fd (b ∷ order) cs =
    block_reads fd order (pread fd block_size (pos (b * block_size)) ∷ cs)

module _ {D : Type 0} (k : Kernel D) (fd : ℤ) where
  read_blocks-run :
      (xs : List ℕ) (n first : ℕ) (t : Trace D)
      → first + n ≤ length xs
      → All (λ x. x < 2 ^ 19) (take n (drop first xs))
      → (t' : Trace D) × (read_blocks fd xs n first k t ≡ done tt t')
        × (calls t' ≡ block_reads fd (take n (drop first xs)) (calls t))
  unfolding read_blocks block_reads calls
  read_blocks-run xs zero first t h small = (t, refl, refl)
  read_blocks-run xs (suc n) first t h small =
      let (b, e) = get_elem?-some first xs (omega arith) in
      let d = drop-cons first xs b e in
      let small' : All (λ x. x < 2 ^ 19) (b ∷ take n (drop (suc first) xs)) = rw d at small in
      let w = wrap_int_id (pos (b * block_size)) (omega (arith, small'.0)) in
      let (t', run, called) =
        read_blocks-run xs n (suc first) (log k t (pread fd block_size (pos (b * block_size))))
          (omega arith) small'.1 in
      (t', rw (e, w) run, rw d called)

-- What a run of `measure_fc_access` has done.
pub record Measured {D : Type 0} ⦃d : Double D⦄ (k : Kernel D) (t : Trace D) (fd : ℤ)
    (num_blocks : ℕ) (random : Bool) (run : Run D D) : Type 0 where
  pub order : List ℕ
  pub buf : ℤ
  pub before : Trace D
  pub after : Trace D
  pub final : Trace D
  pub every_block_once : SameItems order (upto num_blocks 0)
  pub in_order : (random ≡ true) ⊎ (order ≡ upto num_blocks 0)
  pub prepared :
      calls before
      ≡ posix_memalign block_size block_size
        ∷ copies (if random then num_blocks - 1 else 0) rand (calls t)
  pub between : calls after ≡ block_reads fd order (clock_gettime monotonic_raw ∷ calls before)
  pub finished : calls final ≡ free buf ∷ clock_gettime monotonic_raw ∷ calls after
  pub result :
      run
      ≡ done
          (timespec_diff_to_nsecs
              (k before (clock_gettime monotonic_raw)).time
              (k after (clock_gettime monotonic_raw)).time
            ⊖ of_int (pos num_blocks) ⊗ for_loop_overhead
            ⊖ of_int (pos get_time_overhead))
          final

-- `posix_memalign` finds memory.
abbrev pub MemoryIsFound : {D : Type 0} → Kernel D → Type 0
MemoryIsFound {D} k =
    (t : Trace D) → is_zero (k t (posix_memalign block_size block_size)).value ≡ false

module _ {D : Type 0} ⦃d : Double D⦄ (k : Kernel D) (found : MemoryIsFound k) (garbage : ℕ) (fd : ℤ)
    (n : ℕ) (small : n ≤ 2 ^ 19) where
  order_small : (order : List ℕ) → SameItems order (upto n 0) → All (λ x. x < 2 ^ 19) order
  order_small order same =
      All-of-count (2 ^ 19) order (λ a c. ground (arith, same a, count-upto n 0 a))

  timed_reads-Measured :
      (random : Bool) (order : List ℕ) (s t : Trace D)
      → SameItems order (upto n 0)
      → length order ≡ n
      → ((random ≡ true) ⊎ (order ≡ upto n 0))
      → calls s ≡ copies (if random then n - 1 else 0) rand (calls t)
      → Measured k t fd n random (timed_reads fd order n k s)
  unfolding timed_reads calls
  timed_reads-Measured random order s t same len in_order called =
      let buf = (k s (posix_memalign block_size block_size)).value in
      let before = log k s (posix_memalign block_size block_size) in
      let whole : take n order ≡ order = rw (← len) (take-length order) in
      let (after, run, reads) =
        read_blocks-run k fd order n 0 (log k before (clock_gettime monotonic_raw)) (omega arith)
          (rw whole (order_small order same)) in
      record {
        order = order;
        buf = buf;
        before = before;
        after = after;
        final = log k (log k after (clock_gettime monotonic_raw)) (free buf);
        every_block_once = same;
        in_order = in_order;
        prepared = ap (λ cs. posix_memalign block_size block_size ∷ cs) called;
        between = rw whole at reads;
        finished = refl;
        result = rw (found s, run);
      }

  -- Every block of the file is read exactly once between the two clock readings, at the offset
  -- block * 4096, in order or after n - 1 calls of `rand`; the result is the time between the
  -- readings less the loop's overhead, for up to 2 ^ 19 blocks, if memory is found.
  pub measure_fc_access-Measured :
      (random : Bool) (t : Trace D)
      → RandIsNonneg k
      → Measured k t fd n random (measure_fc_access garbage fd n random k t)
  unfolding measure_fc_access copies
  measure_fc_access-Measured false t nonneg =
      rw (fill_indices-upto k n garbage t)
        (timed_reads-Measured false (upto n 0) t t (λ a. refl) (length-upto n 0) (inr refl) refl)
  measure_fc_access-Measured true t nonneg =
      let s = shuffled_upto k nonneg n t in
      rw (fill_indices-upto k n garbage t, s.run)
        (timed_reads-Measured true s.result s.trace t s.same (s.kept ∙ length-upto n 0) (inl refl)
          s.called)
