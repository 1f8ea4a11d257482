-- ===== src/Memory/Ram/Sizes.antt =====
-- The sizes of the blocks of ram_access_time.c, and the program as a whole.
use cse.Base.{
  map, ℕ, zero, suc, ◌+◌, ◌*◌, ◌^◌, ◌≤◌, ◌<◌, ◌≡◌, refl, ap, ◌∙◌, false, List, [], ◌∷◌, length,
  get_elem?, replicate, length-replicate, some, arith,
}
use native.Mathlib.Nat.{two-pow-succ}
use cse.Base.Int.{is_zero}
use cse.Double.{Double}
use cse.Base.Counting.{upto}
use cse.Machine.{
  fill-map, done, time, srand, malloc, Kernel, Trace, log, calls, Ends, Ends-for_range, tally, read,
  ◌>>=◌,
}
use cse.Memory.Ram.{
  size_len, start_array_size_power, fill_sizes, test_size, test_4bytes_to_500mbytes,
}
use cse.Memory.Ram.Strides.{block_in_use, accesses, strays, test_size-strays}

-- The numbers 2 ^ first, 2 ^ (first + 1) and so on, `n` of them.
unfoldable pub powers : (n first : ℕ) → List ℕ
powers zero first = []
powers (suc n) first = 2 ^ first ∷ powers n (suc first)

length-powers : (n first : ℕ) → length (powers n first) ≡ n
unfolding powers
length-powers zero first = refl
length-powers (suc n) first = ap suc (length-powers n (suc first))

pub get_elem?-powers :
    (n first i : ℕ) → i < n → get_elem? (powers n first) i ≡ some (2 ^ (first + i))
unfolding powers
get_elem?-powers zero first i h = absurd (omega arith)
get_elem?-powers (suc n) first zero h = ap (λ e. some (2 ^ e)) (omega arith)
get_elem?-powers (suc n) first (suc i) h =
    get_elem?-powers n (suc first) i (omega arith) ∙ ap (λ e. some (2 ^ e)) (omega arith)

powers-map : (n first : ℕ) → map (λ e. 2 ^ e) (upto n first) ≡ powers n first
unfolding powers upto
powers-map zero first = refl
powers-map (suc n) first = ap (λ l. 2 ^ first ∷ l) (powers-map n (suc first))

-- The sizes that `test_4bytes_to_500mbytes` goes through are the powers of two from 2 ^ 2 to 2 ^ 29,
-- whatever the array holds at first.
pub fill_sizes-powers :
    {D : Type 0} (k : Kernel D) (garbage : ℕ) (t : Trace D)
    → fill_sizes (replicate size_len garbage) k t ≡ done (powers size_len start_array_size_power) t
unfolding fill_sizes
fill_sizes-powers k garbage t =
    fill-map k t start_array_size_power (λ e. 2 ^ e) size_len (replicate size_len garbage)
      (length-replicate size_len garbage)
    ∙ ap (λ l. done l t) (powers-map size_len start_array_size_power)

four_le : (e : ℕ) → 4 ≤ 2 ^ (2 + e)
four_le zero = omega arith
four_le (suc e) =
    let next : 2 + suc e ≡ suc (2 + e) = omega arith in
    omega (arith, ap (λ x. 2 ^ x) next, two-pow-succ (2 + e), four_le e)

module _ {D : Type 0} ⦃d : Double D⦄ (k : Kernel D) (t : Trace D) where
  -- If `malloc` finds every block, `test_4bytes_to_500mbytes` ends after 2800000 accesses, none of them
  -- outside its block.
  pub test_4bytes_to_500mbytes-Ends :
      (garbage : ℕ)
      → ((s : Trace D) (size : ℕ) → is_zero (k s (malloc size)).value ≡ false)
      → Ends
          (λ _ t'.
            (tally accesses (calls t') ≡ 2800000 + tally accesses (calls t))
            × (strays t' ≡ strays t))
          (test_4bytes_to_500mbytes garbage k t)
  unfolding test_4bytes_to_500mbytes calls tally strays block_in_use
  test_4bytes_to_500mbytes-Ends garbage found = rw (fill_sizes-powers k garbage t) (
      let sizes = powers size_len start_array_size_power in
      let s = log k t time in
      let (a, t', run, c) =
        Ends-for_range k
          (λ i _ t'.
            (tally accesses (calls t') ≡ i * 100000 + tally accesses (calls t))
            × (strays t' ≡ strays t))
          (λ i _. (do size ← read sizes i; test_size size)) size_len
          (λ i _ t' h c.
            let e = get_elem?-powers size_len start_array_size_power i h in
            let (a, t'', run, inside) =
              test_size-strays k (2 ^ (2 + i)) t' (four_le i) (found t' (2 ^ (2 + i))) in
            (tt, t'', rw e run, (omega (arith, c.0, inside.0), inside.1 ∙ c.1)))
          size_len 0 tt (log k s (srand (k t time).value)) refl (omega arith, omega arith) in
      (tt, t', run, (omega (arith, c.0), c.1)))
