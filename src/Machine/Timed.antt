-- ===== src/Machine/Timed.antt =====
-- An array that a loop fills with what it computes from pairs of readings of the clock.
use cse.Base.{
  ℕ, ◌+◌, ◌*◌, ◌<◌, ◌≡◌, refl, ap, ◌∙◌, some, List, [], ◌∷◌, ◌++◌, length, length-append, replicate,
  length-replicate, set?, arith,
}
use mathlib.Core.List.{append-nil}
use cse.Base.Arrays.{set?-append}
use cse.Machine.Calls.{Timespec}

nil_of_length : {A : Type 0} (xs : List A) → length xs ≡ 0 → xs ≡ []
nil_of_length [] e = refl
nil_of_length (x ∷ xs) e = absurd (omega arith)

cons_of_length :
    {A : Type 0} (xs : List A) → 0 < length xs → (x : A) × (rest : List A) × (xs ≡ x ∷ rest)
cons_of_length [] h = absurd (omega arith)
cons_of_length (x ∷ xs) h = (x, xs, refl)

module _ {A : Type 0} (value : (start stop : Timespec) → A) where
  -- The values of successive pairs of readings, of which the newest is the first; the oldest value first.
  unfoldable pub times : List Timespec → List A
  times (stop ∷ start ∷ older) = times older ++ value start stop ∷ []
  times _ = []

  -- After `i` of `n` rounds, from the readings `before` to `after`: the array holds the values of the new pairs
  -- of readings, then what it held.
  pub record Stored (n i : ℕ) (before : List Timespec) (xs : List A) (after : List Timespec)
      : Type 0 where
    pub new : List Timespec
    pub rest : List A
    pub read : after ≡ new ++ before
    pub read_count : length new ≡ 2 * i
    pub filled : xs ≡ times new ++ rest
    pub value_count : length (times new) ≡ i
    pub left : length rest + i ≡ n

  pub Stored-none :
      (n : ℕ) (garbage : A) (before : List Timespec)
      → Stored n 0 before (replicate n garbage) before
  unfolding times
  Stored-none n garbage before = record {
    new = [];
    rest = replicate n garbage;
    read = refl;
    read_count = refl;
    filled = refl;
    value_count = refl;
    left = omega (arith, length-replicate n garbage);
  }

  put :
      (n i : ℕ) (before : List Timespec) (xs : List A) (after : List Timespec)
      (start stop : Timespec)
      → i < n
      → (s : Stored n i before xs after) → (x : A) (rest : List A) → s.rest ≡ x ∷ rest
      → (xs' : List A) × (set? xs i (value start stop) ≡ some xs')
        × Stored n (i + 1) before xs' (stop ∷ start ∷ after)
  unfolding times
  put n i before xs after start stop lt s x rest e =
      let pre = times s.new in
      let v = value start stop in
      rw (s.filled, e, ← s.value_count)
        (
          (pre ++ v ∷ []) ++ rest,
          set?-append pre x v rest,
          record {
            new = stop ∷ start ∷ s.new;
            rest = rest;
            read = ap (λ l. stop ∷ start ∷ l) s.read;
            read_count = omega (arith, s.read_count, s.value_count);
            filled = refl;
            value_count = omega (arith, length-append pre (v ∷ []));
            left = omega (arith, s.left, s.value_count, ap length e);
          },
        )

  -- A round stores its value inside the array.
  pub Stored-next :
      (n i : ℕ) (before : List Timespec) (xs : List A) (after : List Timespec)
      (start stop : Timespec)
      → i < n
      → Stored n i before xs after
      → (xs' : List A) × (set? xs i (value start stop) ≡ some xs')
        × Stored n (i + 1) before xs' (stop ∷ start ∷ after)
  Stored-next n i before xs after start stop lt s =
      let (x, rest, e) = cons_of_length s.rest (omega (arith, s.left)) in
      put n i before xs after start stop lt s x rest e

  -- After the last round the array holds the values of the new pairs of readings, and nothing else.
  pub Stored-all :
      (n : ℕ) (before : List Timespec) (xs : List A) (after : List Timespec)
      → Stored n n before xs after
      → (new : List Timespec) × (after ≡ new ++ before)
        × (length new ≡ 2 * n)
        × (xs ≡ times new)
        × (length xs ≡ n)
  Stored-all n before xs after s =
      let none_left : s.rest ≡ [] = nil_of_length s.rest (omega (arith, s.left)) in
      let same : xs ≡ times s.new =
        s.filled ∙ ap (λ l. times s.new ++ l) none_left ∙ append-nil (times s.new) in
      (s.new, s.read, s.read_count, same, ap length same ∙ s.value_count)
