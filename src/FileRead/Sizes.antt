-- ===== src/FileRead/Sizes.antt =====
-- One of the sizes of file_read.c: test.file is written, and the file of the command line read, reported and removed.
use cse.Base.{
  ℕ, zero, suc, ◌+◌, ◌*◌, ◌/◌, ◌^◌, ◌≤◌, ◌<◌, ◌≡◌, refl, ap, ◌∙◌, inl, inr, true, false, String,
  List, [], ◌∷◌, arith,
}
use native.Mathlib.Nat.{two-pow-succ, pow-le-pow_right}
use cse.Base.Counting.{upto}
use cse.Base.Int.{ℤ, pos, is_zero, is_minus_one}
use cse.Double.{Double, ◌⊖◌, ◌⊗◌, ◌⊘◌, of_int}
use cse.Common.{get_time_overhead, for_loop_overhead}
use cse.Common.Time.{timespec_diff_to_nsecs}
use cse.Machine.{
  int, double, Value, Call, clock_gettime, monotonic_raw, posix_memalign, free, system, open_file,
  close, unlink, printf, Kernel, Trace, log, calls, copies, Ends,
}
use cse.FileRead.{block_size, write_to_disk, print_for}
use cse.FileRead.Shuffle.{RandIsNonneg}
use cse.FileRead.Blocks.{block_reads, MemoryIsFound, measure_fc_access-Measured}

-- The system commands succeed, the file can be opened, memory is found, and `rand` is not negative.
pub record IsReady {D : Type 0} (k : Kernel D) : Type 0 where
  pub commands_ok :
      (t : Trace D) (command : String) (args : List (Value D))
      → is_zero (k t (system command args)).value ≡ true
  pub opens : (t : Trace D) (name : String) → is_minus_one (k t (open_file name)).value ≡ false
  pub found : MemoryIsFound k
  pub nonneg : RandIsNonneg k

blocks_of : (i : ℕ) → 2 ^ (21 + i) ≡ 4096 * 2 ^ (9 + i)
blocks_of zero = refl
blocks_of (suc i) =
    let high : 21 + suc i ≡ suc (21 + i) = omega arith in
    let low : 9 + suc i ≡ suc (9 + i) = omega arith in
    omega (
      arith,
      ap (λ e. 2 ^ e) high,
      ap (λ e. 2 ^ e) low,
      two-pow-succ (21 + i),
      two-pow-succ (9 + i),
      blocks_of i,
    )

module _ {D : Type 0} ⦃d : Double D⦄ (k : Kernel D) (file : String) where
  -- what `measure_fc_access` returns for `n` blocks, between two traces
  abbrev pub read_time : (n : ℕ) → (before after : Trace D) → D
  read_time n before after =
      timespec_diff_to_nsecs (k before (clock_gettime monotonic_raw)).time
        (k after (clock_gettime monotonic_raw)).time
      ⊖ of_int (pos n) ⊗ for_loop_overhead
      ⊖ of_int (pos get_time_overhead)

  -- the line for a file of `n` blocks
  abbrev pub size_line : (n : ℕ) → (time : D) → Call D
  size_line n time = printf "%d MB: %.2f us/block\n" (
      int (pos (n * block_size / 1024 / 1024))
      ∷ double (time ⊘ of_int (pos 1000) ⊘ of_int (pos n))
      ∷ [])

  -- Between the two traces dd has written `n` blocks to test.file, whatever `file` is; then `file` has been opened
  -- with empty caches, `n` blocks read from its descriptor from the first to the last, the line printed, the
  -- descriptor closed and `file` removed; there are no other calls.
  pub record SizeRead (n : ℕ) (t t' : Trace D) : Type 0 where
    pub fd : ℤ
    pub buf : ℤ
    pub flushed : Trace D
    pub before : Trace D
    pub after : Trace D
    pub written :
        calls flushed
        ≡ system "sync; echo 1 >|/proc/sys/vm/drop_caches" []
          ∷ system "dd if=/dev/urandom of=test.file count=%d bs=4096 status=none" (int (pos n) ∷ [])
          ∷ calls t
    pub descriptor : fd ≡ (k flushed (open_file file)).value
    pub prepared :
        calls before ≡ posix_memalign block_size block_size ∷ open_file file ∷ calls flushed
    pub between :
        calls after ≡ block_reads fd (upto n 0) (clock_gettime monotonic_raw ∷ calls before)
    pub finished :
        calls t'
        ≡ unlink file
          ∷ close fd
          ∷ size_line n (read_time n before after)
          ∷ free buf
          ∷ clock_gettime monotonic_raw
          ∷ calls after

  -- the first `i` files, of 512, 1024, 2048 and so on blocks
  abbrev pub SizesRead : ℕ → Trace D → Trace D → Type 0
  SizesRead zero t t' = t' ≡ t
  SizesRead (suc i) t t' = (u : Trace D) × SizesRead i t u × SizeRead (2 ^ (9 + i)) u t'

  module _ (ready : IsReady k) (garbage : ℕ) where
    measure-SizeRead :
        (n : ℕ) (t : Trace D)
        → n ≤ 2 ^ 19
        → Ends (λ _ t'. SizeRead n t t') (print_for garbage (n * block_size) false file k t)
    unfolding print_for write_to_disk calls copies
    measure-SizeRead n t small =
        let s = log k t (
          system "dd if=/dev/urandom of=test.file count=%d bs=4096 status=none"
            (int (pos n) ∷ [])) in
        let flushed = log k s (system "sync; echo 1 >|/proc/sys/vm/drop_caches" []) in
        let fd = (k flushed (open_file file)).value in
        let opened = log k flushed (open_file file) in
        let r =
          measure_fc_access-Measured k ready.found garbage fd n small false opened ready.nonneg in
        let in_order : r.order ≡ upto n 0 = elim r.in_order [ inl e ↦ cc | inr e ↦ e ] in
        let blocks : n * block_size / block_size ≡ n = omega arith in
        rw
          (
            blocks,
            ready.commands_ok t "dd if=/dev/urandom of=test.file count=%d bs=4096 status=none"
                (int (pos n) ∷ []),
            ready.commands_ok s "sync; echo 1 >|/proc/sys/vm/drop_caches" [],
            ready.opens flushed file,
            r.result,
          )
          (
            tt,
            _,
            refl,
            record {
              fd = fd;
              buf = r.buf;
              flushed = flushed;
              written = refl;
              descriptor = refl;
              before = r.before;
              after = r.after;
              prepared = r.prepared;
              between =
                  r.between
                  ∙ ap (λ o. block_reads fd o (clock_gettime monotonic_raw ∷ calls r.before))
                      in_order;
              finished = rw r.finished refl;
            },
          )

    pub next-SizesRead :
        (i : ℕ) (t t' : Trace D)
        → i < 10
        → SizesRead i t t'
        → Ends (λ _ u. SizesRead (suc i) t u) (print_for garbage (2 ^ (21 + i)) false file k t')
    next-SizesRead i t t' small sizes =
        let exponent : 9 + i ≤ 19 = omega arith in
        let bytes : 2 ^ (21 + i) ≡ 2 ^ (9 + i) * block_size = omega (arith, blocks_of i) in
        let (_, u, run, last) =
          measure-SizeRead (2 ^ (9 + i)) t' (pow-le-pow_right (omega arith) exponent) in
        rw (bytes, run) (tt, u, refl, (t', sizes, last))
