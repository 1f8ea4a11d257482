-- ===== src/Memory/Bandwidth/Rates.antt =====
-- What memory_bandwidth.c prints of a block, and what it does where there is none.
use cse.Base.{
  ℕ, zero, suc, ◌+◌, ◌*◌, ◌/◌, ◌<◌, ◌≡◌, refl, ◌⊎◌, inl, inr, true, false, Bool-cases, List, [],
  ◌∷◌, String, arith,
}
use cse.Base.Int.{ℤ, pos, is_zero}
use cse.Double.{Double, ◌⊗◌, ◌⊘◌, of_int}
use cse.Common.{billion}
use cse.Common.Setup.{init_test}
use cse.Machine.{
  int, double, printf, Call, malloc, free, Kernel, Trace, done, fault, log, Ends, Ends-and_then,
  Ends-for_range, for_range, pure, M, ◌>>=◌,
}
use cse.Memory.Bandwidth.{
  page_size, mega, sizeof_word, measure_wrmem, measure_rdmem, print_rdwr, main,
}
use cse.Memory.Bandwidth.Words.{
  clock, stores, loads, Measurement, measure_wrmem-stores, measure_rdmem-loads, measure_wrmem-null,
}

-- `n` measurements one after the other, each with the accesses `made`
abbrev pub Measured :
    {D : Type 0} ⦃d : Double D⦄ (k : Kernel D)
    → (made : List (Call D) → List (Call D)) → (size n : ℕ) → Trace D
    → Trace D
    → Type 0
Measured k made size zero t t' = t' ≡ t
Measured {D} k made size (suc n) t t' =
    (u : Trace D) × (result : D) × Measured k made size n t u × Measurement k made size u result t'

-- A series of sixteen measurements, the last of which gives the rate.
pub record Series {D : Type 0} ⦃d : Double D⦄ (k : Kernel D) (made : List (Call D) → List (Call D))
    (size : ℕ) (before after : Trace D) : Type 0 where
  pub warm : Trace D
  pub result : D
  pub first : Measured k made size 15 before warm
  pub last : Measurement k made size warm result after

abbrev pub size_line : {D : Type 0} → (pages : ℕ) → Call D
size_line pages = printf "For %d MB:\n" (int (pos (pages * page_size * sizeof_word / mega)) ∷ [])

-- a line with a rate, in megabytes per second
abbrev pub rate_line : {D : Type 0} ⦃d : Double D⦄ → String → (bytes_per_ns : D) → Call D
rate_line format bytes_per_ns =
    printf format (double (bytes_per_ns ⊗ billion ⊘ of_int (pos mega)) ∷ [])

abbrev pub block_call : {D : Type 0} → (pages : ℕ) → Call D
block_call pages = malloc (sizeof_word * (pages * page_size))

-- From the trace `t` to `t'` the block has been allocated, its words written and read sixteen times, the rates
-- of the last writes and reads printed, and the block freed.
pub record Rates {D : Type 0} ⦃d : Double D⦄ (k : Kernel D) (pages : ℕ) (t t' : Trace D)
    : Type 0 where
  pub mem : ℤ
  pub written : Trace D
  pub measured : Trace D
  pub allocated : mem ≡ (k t (block_call pages)).value
  pub writes :
      Series k
        (stores mem (pages * page_size))
        (pages * page_size)
        (log k (log k t (block_call pages)) (size_line pages))
        written
  pub reads :
      Series k
        (loads mem (pages * page_size))
        (pages * page_size)
        (log k written (rate_line "\twrite MB/s: %f\n" writes.result))
        measured
  pub freed : t' ≡ log k (log k measured (rate_line "\tread MB/s:  %f\n" reads.result)) (free mem)

-- The last calls have been a `malloc` that returned NULL, the line with the size of the block, and a reading of
-- the clock.
pub record NoBlock {D : Type 0} (k : Kernel D) (t' : Trace D) : Type 0 where
  pub pages : ℕ
  pub before : Trace D
  pub null : is_zero (k before (block_call pages)).value ≡ true
  pub last : t' ≡ log k (log k (log k before (block_call pages)) (size_line pages)) clock

module _ {D : Type 0} ⦃d : Double D⦄ (k : Kernel D) where
  -- fifteen measurements and one, as the program makes them
  Series-Ends :
      (made : List (Call D) → List (Call D)) (size : ℕ) (measure : M D D) (t : Trace D)
      → ((u : Trace D) → Ends (Measurement k made size u) (measure k u))
      → (warm : Trace D) × (result : D) × (t' : Trace D) × (for_range 15 0
            (λ _ _. do _ ← measure; pure tt)
            tt
            k
            t
          ≡ done tt warm)
        × (measure k warm ≡ done result t')
        × Measured k made size 15 t warm
        × Measurement k made size warm result t'
  Series-Ends made size measure t once =
      let (_, warm, run, first) =
        Ends-for_range k (λ i _ u. Measured k made size i t u) (λ _ _. (do _ ← measure; pure tt)) 15
          (λ i _ u h earlier. Ends-and_then (once u) λ result u' m.
            let next : i + 1 ≡ suc i = omega arith in
            rw next (tt, u', refl, (u, result, earlier, m)))
          15 0 tt t refl refl in
      let (result, t', run', last) = once warm in (warm, result, t', run, run', first, last)

  module _ (garbage : ℤ) where
    -- with a block, from its allocation on
    print_rdwr-Rates :
        (pages : ℕ) (t : Trace D)
        → is_zero (k t (block_call pages)).value ≡ false
        → Ends (λ _ t'. Rates k pages t t') (print_rdwr garbage pages k t)
    unfolding print_rdwr
    print_rdwr-Rates pages t found =
        let mem = (k t (block_call pages)).value in
        let n = pages * page_size in
        let s = log k (log k t (block_call pages)) (size_line pages) in
        let (warm1, r1, t1, run1, run1', first1, last1) =
          Series-Ends (stores mem n) n (measure_wrmem mem n) s
            (measure_wrmem-stores k mem n found) in
        let s2 = log k t1 (rate_line "\twrite MB/s: %f\n" r1) in
        let (warm2, r2, t2, run2, run2', first2, last2) =
          Series-Ends (loads mem n) n (measure_rdmem garbage mem n) s2
            (measure_rdmem-loads k mem n found garbage) in
        rw (run1, run1', run2, run2')
          (
            tt,
            _,
            refl,
            record {
              mem = mem;
              written = t1;
              measured = t2;
              allocated = refl;
              writes = record { warm = warm1; result = r1; first = first1; last = last1 };
              reads = record { warm = warm2; result = r2; first = first2; last = last2 };
              freed = refl;
            },
          )

    print_rdwr-null :
        (pages : ℕ) (t : Trace D)
        → 0 < pages
        → is_zero (k t (block_call pages)).value ≡ true
        → print_rdwr garbage pages k t
          ≡ fault (log k (log k (log k t (block_call pages)) (size_line pages)) clock)
    unfolding print_rdwr for_range
    print_rdwr-null pages t some_pages null =
        rw
          (measure_wrmem-null k (k t (block_call pages)).value (pages * page_size)
            (log k (log k t (block_call pages)) (size_line pages)) (omega arith) null)
          refl

    print_rdwr-cases :
        (pages : ℕ) (t : Trace D)
        → 0 < pages
        → Ends (λ _ t'. Rates k pages t t') (print_rdwr garbage pages k t)
          ⊎ ((t' : Trace D) × (print_rdwr garbage pages k t ≡ fault t') × NoBlock k t')
    print_rdwr-cases pages t some_pages =
        elim (Bool-cases (is_zero (k t (block_call pages)).value)) [
          | inl e ↦ inr (
            _,
            print_rdwr-null pages t some_pages e,
            record { pages = pages; before = t; null = e; last = refl },
          )
          | inr e ↦ inl (print_rdwr-Rates pages t e)
        ]

    -- If `init_test` succeeds, memory_bandwidth.c returns 0 or faults. If it returns 0, it has allocated blocks
    -- of 1024, 2048 and 8192 pages in this order, and printed the size of each. Sixteen times it has written
    -- every word of the block with its index, from the first to the last, between two readings of the clock, and
    -- printed the rate that the last two give; then it has read every word sixteen times in the same way,
    -- printed that rate, and freed the block. It faults at its first write to a block for which `malloc` has
    -- returned NULL: the last calls are this `malloc`, the line with the size, and a reading of the clock.
    pub main-Rates :
        (t t0 : Trace D)
        → init_test k t ≡ done (pos 0) t0
        → ((t1 t2 t3 : Trace D) × (main garbage k t ≡ done (pos 0) t3)
            × Rates k 1024 t0 t1
            × Rates k 2048 t1 t2
            × Rates k 8192 t2 t3)
          ⊎ ((t' : Trace D) × (main garbage k t ≡ fault t') × NoBlock k t')
    unfolding main
    main-Rates t t0 started = elim (print_rdwr-cases 1024 t0 (omega arith)) [
      | inr (t', run, none) ↦ inr (t', rw (started, run) refl, none)
      | inl (_, t1, run1, r1) ↦ elim (print_rdwr-cases 2048 t1 (omega arith)) [
        | inr (t', run, none) ↦ inr (t', rw (started, run1, run) refl, none)
        | inl (_, t2, run2, r2) ↦ elim (print_rdwr-cases 8192 t2 (omega arith)) [
          | inr (t', run, none) ↦ inr (t', rw (started, run1, run2, run) refl, none)
          | inl (_, t3, run3, r3) ↦
              inl (t1, t2, t3, rw (started, run1, run2, run3) refl, r1, r2, r3)
        ]
      ]
    ]
