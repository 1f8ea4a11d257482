-- ===== src/Memory/Ram/Printed.antt =====
-- The lines that ram_access_time.c prints: each size beside the power of two that it is.
use cse.Base.{
  ℕ, zero, suc, ◌+◌, ◌/◌, ◌^◌, ◌≤◌, ◌<◌, ◌≡◌, refl, ◌∙◌, false, ltb, List, [], ◌∷◌, arith,
}
use native.Mathlib.Nat.{two-pow-succ}
use cse.Base.Int.{pos, is_zero}
use cse.Double.{Double}
use cse.Machine.{
  Value, int, Call, printf, time, srand, malloc, memset, clock_gettime, monotonic_raw, Kernel,
  Trace, log, calls, Ends, Ends-and_then, Ends-for_range, read, ◌>>=◌,
}
use cse.Memory.Ram.{
  size_len, start_array_size_power, test_count, int_max, log2, access, test_size,
  test_4bytes_to_500mbytes,
}
use cse.Memory.Ram.Sizes.{powers, get_elem?-powers, fill_sizes-powers}

-- the first two columns of a line, in front of those of the lines before it
abbrev pub columns : {D : Type 0} → Call D → List (Value D × Value D) → List (Value D × Value D)
columns (printf format (size ∷ power ∷ per_access ∷ cycles ∷ [])) older = (size, power) ∷ older
columns _ older = older

-- the lines of four columns among the calls, newest first
unfoldable pub lines : {D : Type 0} → List (Call D) → List (Value D × Value D)
lines [] = []
lines (c ∷ cs) = columns c (lines cs)

-- the sizes from 2 ^ first on, `n` of them, each beside its power, newest first, before the lines `older`
unfoldable pub sizes_and_powers :
    {D : Type 0} → (n first : ℕ) → List (Value D × Value D) → List (Value D × Value D)
sizes_and_powers zero first older = older
sizes_and_powers (suc n) first older =
    (int (pos (2 ^ (first + n))), int (pos (first + n))) ∷ sizes_and_powers n first older

half : (p : ℕ) → 2 ^ suc p / 2 ≡ 2 ^ p
half p = omega (arith, two-pow-succ p)

one_le : (p : ℕ) → 1 ≤ 2 ^ p
one_le zero = omega arith
one_le (suc p) = omega (arith, two-pow-succ p, one_le p)

two_le : (p : ℕ) → ltb (2 ^ suc p) 2 ≡ false
two_le p = ground (arith, two-pow-succ p, one_le p)

log2-pow : (fuel p : ℕ) → p < fuel → log2 fuel (2 ^ p) ≡ p
unfolding log2
log2-pow zero p h = absurd (omega arith)
log2-pow (suc fuel) zero h = refl
log2-pow (suc fuel) (suc p) h = rw (two_le p, half p, log2-pow fuel p (omega arith)) (omega arith)

module _ {D : Type 0} ⦃d : Double D⦄ (k : Kernel D) where
  abbrev Lines : List (Value D × Value D) → Trace D → Type 0
  Lines printed t = lines (calls t) ≡ printed

  test_size-line :
      (size : ℕ) (t : Trace D)
      → is_zero (k t (malloc size)).value ≡ false
      → Ends
          (λ _ t'. Lines ((int (pos size), int (pos (log2 31 size))) ∷ lines (calls t)) t')
          (test_size size k t)
  unfolding test_size access lines calls
  test_size-line size t found =
      let pointer = (k t (malloc size)).value in
      let s =
        log k (log k (log k t (malloc size)) (memset pointer int_max size))
          (clock_gettime monotonic_raw) in
      rw found (
        Ends-and_then
          (Ends-for_range k (λ _ _ t'. Lines (lines (calls t)) t') (λ _ _. access pointer size)
            test_count (λ _ _ t' _ same. (tt, _, refl, same)) test_count 0 tt s (omega arith) refl)
          λ _ t' same. (tt, _, refl, rw same refl))

  -- If `malloc` finds every block, `test_4bytes_to_500mbytes` ends, and its lines give in their first two
  -- columns the sizes 2 ^ 2 to 2 ^ 29, in this order, and beside each size the power from which the program
  -- has computed it: `log2` takes back what `pow` has done.
  pub test_4bytes_to_500mbytes-powers :
      (garbage : ℕ) (t : Trace D)
      → ((s : Trace D) (size : ℕ) → is_zero (k s (malloc size)).value ≡ false)
      → Ends
          (λ _ t'.
            lines (calls t') ≡ sizes_and_powers size_len start_array_size_power (lines (calls t)))
          (test_4bytes_to_500mbytes garbage k t)
  unfolding test_4bytes_to_500mbytes calls lines sizes_and_powers
  test_4bytes_to_500mbytes-powers garbage t found = rw (fill_sizes-powers k garbage t) (
      let sizes = powers size_len start_array_size_power in
      let older = lines (calls t) in
      let s = log k t time in
      Ends-for_range k (λ i _ t'. Lines (sizes_and_powers i 2 older) t')
        (λ i _. (do size ← read sizes i; test_size size)) size_len
        (λ i _ t' h printed.
          let e = get_elem?-powers size_len start_array_size_power i h in
          let (a, t'', run, line) = test_size-line (2 ^ (2 + i)) t' (found t' (2 ^ (2 + i))) in
          let power = log2-pow 31 (2 + i) (omega arith) in
          let next : i + 1 ≡ suc i = omega arith in
          (tt, t'', rw e run, rw next (line ∙ rw (power, printed) refl)))
        size_len 0 tt (log k s (srand (k t time).value)) refl refl)
