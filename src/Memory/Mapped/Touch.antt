-- ===== src/Memory/Mapped/Touch.antt =====
-- Which words of a mapping `measure_access` touches. The index counts `int`s, of which a page has 1024,
-- and goes up by 4096: one access for every four pages' worth of `int`s, and the bound is a number of
-- pages.
use cse.Base.{ℕ, zero, suc, ◌+◌, ◌*◌, ◌/◌, ◌≤◌, ◌<◌, ◌≡◌, refl, true, false, List, ◌∷◌, ltb, arith}
use cse.Base.Int.{ℤ}
use cse.Double.{Double}
use cse.Machine.{Call, clock_gettime, monotonic_raw, load, Kernel, Trace, done, log, calls}
use cse.Common.Time.{timespec_diff_to_nsecs}
use cse.Memory.Mapped.{page_size, touch, measure_access}

-- The loads of `n` words, 4096 apart from index `i` on, after the calls `cs`.
unfoldable pub loads : {D : Type 0} → (mem : ℤ) → (n i : ℕ) → List (Call D) → List (Call D)
loads mem zero i cs = cs
loads mem (suc n) i cs = loads mem n (i + page_size) (load mem i ∷ cs)

module _ {D : Type 0} (k : Kernel D) (mem : ℤ) (num_pages : ℕ) where
  pub touch-loads :
      (fuel n i : ℕ) (t : Trace D)
      → num_pages ≤ i + 4096 * n
      → i + 4096 * n < num_pages + 4096
      → n < fuel
      → (t' : Trace D) × (touch fuel mem num_pages i k t ≡ done tt t')
        × (calls t' ≡ loads mem n i (calls t))
  unfolding touch loads calls
  touch-loads zero n i t h g f = absurd (omega arith)
  touch-loads (suc fuel) zero i t h g f =
      let e : ltb i num_pages ≡ false = ground arith in rw e (t, refl, refl)
  touch-loads (suc fuel) (suc n) i t h g f =
      let e : ltb i num_pages ≡ true = ground arith in
      let (t', run, called) =
        touch-loads fuel n (i + page_size) (log k t (load mem i)) (omega arith) (omega arith)
          (omega arith) in
      rw e (t', run, called)

module _ {D : Type 0} ⦃d : Double D⦄ (k : Kernel D) (mem : ℤ) (num_pages : ℕ) (t : Trace D) where
  -- `measure_access` ends, for any number of pages: it has made one access for every 4096 pages or
  -- part of them, to the words 0, 4096, 8192 and so on, between its two readings of the clock, and
  -- returns the time between the readings.
  pub measure_access-loads :
      (after : Trace D) × (measure_access mem num_pages k t
        ≡ done
            (timespec_diff_to_nsecs
              (k t (clock_gettime monotonic_raw)).time
              (k after (clock_gettime monotonic_raw)).time)
            (log k after (clock_gettime monotonic_raw)))
      × (calls after
          ≡ loads mem ((num_pages + 4095) / 4096) 0 (clock_gettime monotonic_raw ∷ calls t))
  unfolding measure_access calls
  measure_access-loads =
      let (after, run, called) =
        touch-loads k mem num_pages (num_pages + 1) ((num_pages + 4095) / 4096) 0
          (log k t (clock_gettime monotonic_raw)) (omega arith) (omega arith) (omega arith) in
      (after, rw run refl, called)

  -- Of a mapping of 1 to 4096 pages `measure_access` touches the first word and no other.
  pub measure_access-first_word :
      0 < num_pages
      → num_pages ≤ 4096
      → (after : Trace D) × (measure_access mem num_pages k t
          ≡ done
              (timespec_diff_to_nsecs
                (k t (clock_gettime monotonic_raw)).time
                (k after (clock_gettime monotonic_raw)).time)
              (log k after (clock_gettime monotonic_raw)))
        × (calls after ≡ load mem 0 ∷ clock_gettime monotonic_raw ∷ calls t)
  unfolding loads
  measure_access-first_word some few =
      let one : (num_pages + 4095) / 4096 ≡ 1 = omega arith in rw one at measure_access-loads
