-- ===== src/FileRead/Shuffle.antt =====
-- The shuffle of `measure_fc_access`: a rearrangement, in which no number stays where it was.
use cse.Base.{
  ℕ, zero, suc, ◌-◌, ◌%◌, ◌≤◌, ◌<◌, ◌≡◌, ◌≢◌, refl, ◌∙◌, ◌⊎◌, false, some, List, [], length,
  get_elem?, set, length-set, arith,
}
use cse.Base.Arrays.{get_elem?-some, set?-some, lt_of_get_elem?}
use cse.Base.Counting.{
  upto, length-upto, get_elem?-upto, SameItems, swapped, length-swapped, get_elem?-swapped,
  swapped-SameItems,
}
use cse.Base.Int.{ℤ, pos, negsuc, is_negative}
use cse.Machine.{rand, Kernel, Trace, done, log, calls, copies, copies-cons}
use cse.FileRead.{shuffle, remainder}

-- `rand()` returns a number from 0 to RAND_MAX.
abbrev pub RandIsNonneg : {D : Type 0} → Kernel D → Type 0
RandIsNonneg {D} k = (t : Trace D) → is_negative (k t rand).value ≡ false

remainder-lt :
    (r : ℤ) (i : ℕ) → is_negative r ≡ false → (j : ℕ) × (remainder r (suc i) ≡ some j) × (j < suc i)
remainder-lt (pos r) i h = (r % suc i, refl, omega arith)
remainder-lt (negsuc r) i h = cc

-- Before the step at `i`, a position up to `i` holds its own number or one above `i`; the positions
-- above `i` hold other numbers than their own.
record Invariant (i : ℕ) (xs : List ℕ) : Type 0 where
  open_part : (p v : ℕ) → p ≤ i → get_elem? xs p ≡ some v → (v ≡ p) ⊎ (i < v)
  moved_part : (p v : ℕ) → i < p → get_elem? xs p ≡ some v → v ≢ p

-- The end of the loop: no position holds its own number.
abbrev pub NoneInPlace : List ℕ → Type 0
NoneInPlace xs = (p v : ℕ) → get_elem? xs p ≡ some v → v ≢ p

module _ (i j : ℕ) (xs : List ℕ) (at_i at_j : ℕ) (e : get_elem? xs (suc i) ≡ some at_i)
    (f : get_elem? xs j ≡ some at_j) (lt : j < suc i) (inv : Invariant (suc i) xs) where
  step-Invariant : Invariant i (swapped xs (suc i) j at_i at_j)
  step-Invariant = record {
    open_part = λ p v le h. ground (
      arith,
      get_elem?-swapped xs (suc i) j at_i at_j e f p,
      inv.open_part p v,
      inv.open_part (suc i) at_i,
    );
    moved_part = λ p v le h. ground (
      arith,
      get_elem?-swapped xs (suc i) j at_i at_j e f p,
      inv.open_part j at_j,
      inv.moved_part p v,
    );
  }

  -- the last step moves the number at 0 too
  step-NoneInPlace : i ≡ 0 → NoneInPlace (swapped xs (suc i) j at_i at_j)
  step-NoneInPlace z p v h = ground (
    arith,
    get_elem?-swapped xs (suc i) j at_i at_j e f p,
    inv.open_part (suc i) at_i,
    inv.open_part j at_j,
    inv.moved_part p v,
  )

module _ {D : Type 0} (k : Kernel D) (nonneg : RandIsNonneg k) where
  -- The loop ends, with the same items in the array, after one call of `rand` for each step.
  pub record Shuffled (i : ℕ) (xs : List ℕ) (t : Trace D) : Type 0 where
    pub result : List ℕ
    pub trace : Trace D
    pub run : shuffle i xs k t ≡ done result trace
    pub same : SameItems result xs
    pub kept : length result ≡ length xs
    pub called : calls trace ≡ copies i rand (calls t)

  record Step (i : ℕ) (xs : List ℕ) (t : Trace D) : Type 0 where
    j : ℕ
    at_i : ℕ
    at_j : ℕ
    below : j < suc i
    got_i : get_elem? xs (suc i) ≡ some at_i
    got_j : get_elem? xs j ≡ some at_j
    run : shuffle (suc i) xs k t ≡ shuffle i (swapped xs (suc i) j at_i at_j) k (log k t rand)

  step : (i : ℕ) (xs : List ℕ) (t : Trace D) → suc i < length xs → Step i xs t
  unfolding shuffle
  step i xs t h =
      let (j, e, lt) = remainder-lt (k t rand).value i (nonneg t) in
      let (at_i, f) = get_elem?-some (suc i) xs h in
      let (at_j, g) = get_elem?-some j xs (omega arith) in
      record {
        j = j;
        at_i = at_i;
        at_j = at_j;
        below = lt;
        got_i = f;
        got_j = g;
        run = rw (
          e,
          f,
          g,
          set?-some (suc i) xs at_j h,
          set?-some j (set xs (suc i) at_j) at_i (omega (arith, length-set xs (suc i) at_j)),
        );
      }

  still_inside :
      (i : ℕ) (xs : List ℕ) (t : Trace D) (s : Step i xs t)
      → suc i < length xs
      → i < length (swapped xs (suc i) s.j s.at_i s.at_j)
  still_inside i xs t s h =
      omega (arith, length-swapped xs (suc i) s.j s.at_i s.at_j s.got_i s.got_j)

  pub shuffled : (i : ℕ) (xs : List ℕ) (t : Trace D) → i < length xs → Shuffled i xs t
  unfolding shuffle copies calls
  shuffled zero xs t h = record {
    result = xs;
    trace = t;
    run = refl;
    same = λ a. refl;
    kept = refl;
    called = refl;
  }
  shuffled (suc i) xs t h =
      let s = step i xs t h in
      let xs' = swapped xs (suc i) s.j s.at_i s.at_j in
      let len = length-swapped xs (suc i) s.j s.at_i s.at_j s.got_i s.got_j in
      let rest = shuffled i xs' (log k t rand) (still_inside i xs t s h) in
      record {
        result = rest.result;
        trace = rest.trace;
        run = s.run ∙ rest.run;
        same = λ a. rest.same a ∙ swapped-SameItems xs (suc i) s.j s.at_i s.at_j s.got_i s.got_j a;
        kept = rest.kept ∙ len;
        called = rest.called ∙ copies-cons i rand (calls t);
      }

  pub shuffled_upto : (n : ℕ) (t : Trace D) → Shuffled (n - 1) (upto n 0) t
  unfolding shuffle copies upto
  shuffled_upto zero t = record {
    result = [];
    trace = t;
    run = refl;
    same = λ a. refl;
    kept = refl;
    called = refl;
  }
  shuffled_upto (suc n) t =
      shuffled (suc n - 1) (upto (suc n) 0) t (omega (arith, length-upto (suc n) 0))

  shuffled-NoneInPlace :
      (i : ℕ) (xs : List ℕ) (t : Trace D) (h : suc i < length xs)
      → Invariant (suc i) xs
      → NoneInPlace (shuffled (suc i) xs t h).result
  unfolding shuffled
  shuffled-NoneInPlace zero xs t h inv =
      let s = step zero xs t h in
      step-NoneInPlace zero s.j xs s.at_i s.at_j s.got_i s.got_j s.below inv refl
  shuffled-NoneInPlace (suc i) xs t h inv =
      let s = step (suc i) xs t h in
      let xs' = swapped xs (suc (suc i)) s.j s.at_i s.at_j in
      shuffled-NoneInPlace i xs' (log k t rand) (still_inside (suc i) xs t s h)
        (step-Invariant (suc i) s.j xs s.at_i s.at_j s.got_i s.got_j s.below inv)

  upto-Invariant : (n : ℕ) → Invariant (suc n) (upto (suc (suc n)) 0)
  upto-Invariant n = record {
    open_part = λ p v le h. ground (arith, get_elem?-upto (suc (suc n)) 0 p);
    moved_part = λ p v lt h.
        ground (arith, lt_of_get_elem? p (upto (suc (suc n)) 0) v, length-upto (suc (suc n)) 0);
  }

  -- The shuffle of 0 .. n - 1, for n of at least 2, ends after n - 1 calls of `rand` with a
  -- rearrangement of the numbers in which none stands at its own place: it draws its partner from
  -- the places below only, so it never leaves the order as it was, which a Fisher-Yates shuffle may.
  pub shuffle-NoneInPlace :
      (n : ℕ) (t : Trace D)
      → (xs : List ℕ) × (t' : Trace D) × (shuffle (suc n) (upto (suc (suc n)) 0) k t ≡ done xs t')
        × SameItems xs (upto (suc (suc n)) 0)
        × NoneInPlace xs
        × (calls t' ≡ copies (suc n) rand (calls t))
  shuffle-NoneInPlace n t =
      let inside : suc n < length (upto (suc (suc n)) 0) =
        omega (arith, length-upto (suc (suc n)) 0) in
      let s = shuffled (suc n) (upto (suc (suc n)) 0) t inside in
      (
        s.result,
        s.trace,
        s.run,
        s.same,
        shuffled-NoneInPlace n (upto (suc (suc n)) 0) t inside (upto-Invariant n),
        s.called,
      )
