-- ===== src/FileRead/Whole.antt =====
-- file_read.c as a whole: its ten files, and how many blocks one run reads.
use cse.Base.{
  ℕ, zero, suc, ◌+◌, ◌*◌, ◌^◌, ◌≡◌, refl, ap, ◌∙◌, false, String, List, [], ◌∷◌, length, arith,
}
use native.Mathlib.Nat.{two-pow-succ}
use cse.Base.Counting.{upto, length-upto}
use cse.Base.Int.{ℤ, pos}
use cse.Double.{Double}
use cse.Machine.{
  text, Call, clock_gettime, monotonic_raw, pread, printf, Kernel, Trace, done, log, calls,
  Ends-for_range, tally,
}
use cse.Common.Setup.{init_test}
use cse.FileRead.{block_size, print_for, main}
use cse.FileRead.Blocks.{block_reads}
use cse.FileRead.Sizes.{IsReady, SizeRead, SizesRead, next-SizesRead}

abbrev pub preads : {D : Type 0} → Call D → ℕ
preads (pread fd size offset) = 1
preads _ = 0

tally-block_reads :
    {D : Type 0} (fd : ℤ) (order : List ℕ) (cs : List (Call D))
    → tally preads (block_reads fd order cs) ≡ length order + tally preads cs
unfolding block_reads tally
tally-block_reads fd [] cs = omega arith
tally-block_reads fd (b ∷ order) cs =
    omega (arith, tally-block_reads fd order (pread fd block_size (pos (b * block_size)) ∷ cs))

next_power : (i : ℕ) → 2 ^ (9 + suc i) ≡ 2 ^ (9 + i) + 2 ^ (9 + i)
next_power i =
    let low : 9 + suc i ≡ suc (9 + i) = omega arith in ap (λ e. 2 ^ e) low ∙ two-pow-succ (9 + i)

module _ {D : Type 0} ⦃d : Double D⦄ (k : Kernel D) (file : String) where
  tally-SizeRead :
      (n : ℕ) (t t' : Trace D)
      → SizeRead k file n t t'
      → tally preads (calls t') ≡ n + tally preads (calls t)
  unfolding tally
  tally-SizeRead n t t' r = omega (
    arith,
    ap (tally preads) r.finished,
    ap (tally preads) r.between,
    ap (tally preads) r.prepared,
    ap (tally preads) r.written,
    tally-block_reads r.fd (upto n 0) (clock_gettime monotonic_raw ∷ calls r.before),
    length-upto n 0,
  )

  tally-SizesRead :
      (i : ℕ) (t t' : Trace D)
      → SizesRead k file i t t'
      → tally preads (calls t') + 512 ≡ 2 ^ (9 + i) + tally preads (calls t)
  tally-SizesRead zero t t' e = omega (arith, ap (λ u. tally preads (calls u)) e)
  tally-SizesRead (suc i) t t' (u, sizes, last) =
      omega
        (arith, tally-SizesRead i t u sizes, tally-SizeRead (2 ^ (9 + i)) u t' last, next_power i)

-- If `init_test` succeeds and the system is ready, a run of file_read.c on one file ends with status 0. It has
-- gone through ten sizes, of 2 ^ 21 to 2 ^ 30 bytes. For each, dd has written test.file, whatever the file on the
-- command line is; the latter has been opened with empty caches, and read from the descriptor block by block
-- from the first to the last between two readings of the clock, whose difference gives the line; then the
-- descriptor has been closed and the file removed. There are no other calls, and 523776 blocks have been read in all.
pub main-SizesRead :
    {D : Type 0} ⦃d : Double D⦄ (k : Kernel D) (garbage : ℕ) (file : String) (t t0 : Trace D)
    → IsReady k
    → init_test k t ≡ done (pos 0) t0
    → (t' : Trace D) × (main garbage (file ∷ []) k t ≡ done (pos 0) t')
      × SizesRead k file 10 (log k t0 (printf "\nSequential on file %s:\n" (text file ∷ []))) t'
      × (tally preads (calls t') ≡ 523776 + tally preads (calls t0))
unfolding main tally calls
main-SizesRead k garbage file t t0 ready started =
    let first = log k t0 (printf "\nSequential on file %s:\n" (text file ∷ [])) in
    let (_, t', run, (i, e, sizes)) =
      Ends-for_range k (λ b _ t'. (i : ℕ) × (b ≡ 21 + i) × SizesRead k file i first t')
        (λ fs_bits _. print_for garbage (2 ^ fs_bits) false file) 31
        (λ b _ s h (i, e, sizes).
          let (_, u, run, next) =
            next-SizesRead k file ready garbage i first s (omega arith) sizes in
          (tt, u, rw e run, (suc i, omega arith, next)))
        10 21 tt first refl (0, refl, refl) in
    let ten : i ≡ 10 = omega arith in
    let all : SizesRead k file 10 first t' = rw ten at sizes in
    (t', rw (started, run) refl, all, omega (arith, tally-SizesRead k file 10 first t' all))
