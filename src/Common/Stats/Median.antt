-- ===== src/Common/Stats/Median.antt =====
-- What `get_median` computes: it sorts half of the array's bytes, as integers.
use cse.Base.{
  ℕ, zero, suc, ◌+◌, ◌-◌, ◌*◌, ◌/◌, ◌≤◌, ◌<◌, ◌≡◌, refl, ◌∙◌, none, some, List, [], ◌∷◌, ◌++◌, take,
  drop, get_elem?, length, length-take, length-append, length-drop, arith,
}
use Prim.Native.Nat.add
use cse.Base.Arrays.{get_elem?-drop, get_elem?-none, get_elem?-some, lt_of_get_elem?}
use cse.Base.Int.{ℤ, pos}
use cse.Double.{Double, ◌⊕◌, ◌⊘◌, of_int}
use cse.Common.Stats.{Qsort, compare_function, to_ints, of_ints, sort_array, get_median}

-- `qsort` moves elements about in its array, and neither adds nor drops any.
abbrev pub KeepsLength : {A : Type 0} → Qsort A → Type 0
KeepsLength {A} qsort = (compare : A → A → ℤ) (xs : List A) → length (qsort compare xs) ≡ length xs

-- The two halves of each `double` of the array make up its representation.
abbrev pub IsSplit : {D : Type 0} ⦃d : Double D⦄ → List D → Type 0
IsSplit [] = Unit {0}
IsSplit ⦃d⦄ (x ∷ xs) = (d.of_words (d.low x) (d.high x) ≡ x) × IsSplit xs

length-of_ints :
    (D : Type 0) ⦃d : Double D⦄ (ws : List ℤ) → length (of_ints {D = D} ws) ≡ length ws / 2
unfolding of_ints
length-of_ints D [] = refl
length-of_ints D (w ∷ []) = refl
length-of_ints D (l ∷ h ∷ ws) = omega (arith, length-of_ints D ws)

module _ {D : Type 0} ⦃d : Double D⦄ where
  length-to_ints : (xs : List D) → length (to_ints xs) ≡ 2 * length xs
  unfolding to_ints
  length-to_ints [] = refl
  length-to_ints (x ∷ xs) = omega (arith, length-to_ints xs)

  drop-to_ints :
      (h : ℕ) (xs : List D) (n : ℕ) → n ≡ 2 * h → drop n (to_ints xs) ≡ to_ints (drop h xs)
  unfolding to_ints
  drop-to_ints zero xs n e = let z : n ≡ 0 = omega arith in rw z
  drop-to_ints (suc h) [] n e = let z : n ≡ suc (n - 1) = omega arith in rw z
  drop-to_ints (suc h) (x ∷ xs) n e =
      let z : n ≡ suc (suc (n - 2)) = omega arith in rw z (drop-to_ints h xs (n - 2) (omega arith))

  pub length-sort_array :
      (qsort : Qsort ℤ) (xs : List D) (size : ℕ)
      → KeepsLength qsort
      → length (sort_array qsort xs size) ≡ length xs
  unfolding sort_array
  length-sort_array qsort xs size keeps = omega (
    arith,
    length-of_ints D (qsort compare_function (take size (to_ints xs)) ++ drop size (to_ints xs)),
    length-append (qsort compare_function (take size (to_ints xs))) (drop size (to_ints xs)),
    keeps compare_function (take size (to_ints xs)),
    length-take size (to_ints xs),
    length-drop size (to_ints xs),
    length-to_ints xs,
  )

  of_ints-to_ints : (xs : List D) → IsSplit xs → of_ints (to_ints xs) ≡ xs
  unfolding of_ints to_ints
  of_ints-to_ints [] split = refl
  of_ints-to_ints (x ∷ xs) split = rw (split.0, of_ints-to_ints xs split.1)

  IsSplit-drop : (h : ℕ) (xs : List D) → IsSplit xs → IsSplit (drop h xs)
  IsSplit-drop zero xs split = split
  IsSplit-drop (suc h) [] split = tt
  IsSplit-drop (suc h) (x ∷ xs) split = IsSplit-drop h xs split.1

  -- behind 2 * h integers the doubles are the old ones
  get_elem?-of_ints :
      (h j : ℕ) (ws : List ℤ) (xs : List D)
      → IsSplit xs
      → length ws ≡ 2 * h
      → get_elem? (of_ints (ws ++ to_ints xs)) (h + j) ≡ get_elem? xs j
  unfolding of_ints
  get_elem?-of_ints zero j [] xs split e = rw (add.zero, of_ints-to_ints xs split)
  get_elem?-of_ints (suc h) j [] xs split e = absurd (omega arith)
  get_elem?-of_ints zero j (l ∷ ws) xs split e = absurd (omega arith)
  get_elem?-of_ints (suc h) j (l ∷ []) xs split e = absurd (omega arith)
  get_elem?-of_ints (suc h) j (l ∷ w ∷ ws) xs split e =
      rw add.suc (get_elem?-of_ints h j ws xs split (omega arith))

  -- The sort leaves the second half of the array as it was.
  get_elem?-sort_array :
      (qsort : Qsort ℤ) (xs : List D) (h i : ℕ)
      → IsSplit xs
      → KeepsLength qsort
      → h ≤ length xs
      → h ≤ i
      → get_elem? (sort_array qsort xs (2 * h)) i ≡ get_elem? xs i
  unfolding sort_array
  get_elem?-sort_array qsort xs h i split keeps le at =
      let j = i - h in
      let e : i ≡ h + (i - h) = omega arith in
      rw (drop-to_ints h xs (2 * h) refl, e)
        (get_elem?-of_ints h j _ (drop h xs) (IsSplit-drop h xs split) (
            omega (
              arith,
              keeps compare_function (take (2 * h) (to_ints xs)),
              length-take (2 * h) (to_ints xs),
              length-to_ints xs,
            ))
          ∙ get_elem?-drop h j xs)

  -- For an array of even size `get_median` returns the mean of elements size / 2 and size / 2 + 1
  -- of the array as it was given, in whatever order it was and whatever `qsort` does to the bytes
  -- that it is handed.
  pub get_median-unsorted :
      (qsort : Qsort ℤ) (xs : List D) (h : ℕ) (a b : D)
      → IsSplit xs
      → KeepsLength qsort
      → get_elem? xs h ≡ some a
      → get_elem? xs (h + 1) ≡ some b
      → get_median qsort xs (2 * h) ≡ some ((a ⊕ b) ⊘ of_int (pos 2), sort_array qsort xs (2 * h))
  unfolding get_median
  get_median-unsorted qsort xs h a b split keeps e f =
      let half : 2 * h / 2 ≡ h = omega arith in
      let inside : h ≤ length xs = omega (arith, lt_of_get_elem? h xs a e) in
      let e' = get_elem?-sort_array qsort xs h h split keeps inside (omega arith) ∙ e in
      let f' = get_elem?-sort_array qsort xs h (h + 1) split keeps inside (omega arith) ∙ f in
      rw (half, e', half, f', get_median)

  -- On an array of more than two elements `get_median` reads inside it.
  pub get_median-inside :
      (qsort : Qsort ℤ) (xs : List D)
      → KeepsLength qsort
      → 2 < length xs
      → (m : D) × (get_median qsort xs (length xs) ≡ some (m, sort_array qsort xs (length xs)))
  unfolding get_median
  get_median-inside qsort xs keeps long =
      let size = length-sort_array qsort xs (length xs) keeps in
      let (a, e) = get_elem?-some (length xs / 2) (sort_array qsort xs (length xs)) (omega arith) in
      let (b, f) =
        get_elem?-some (length xs / 2 + 1) (sort_array qsort xs (length xs)) (omega arith) in
      ((a ⊕ b) ⊘ of_int (pos 2), rw (e, f, get_median))

  -- An array of one or two elements is too short: `get_median` reads outside it.
  pub get_median-short :
      (qsort : Qsort ℤ) (xs : List D)
      → KeepsLength qsort
      → length xs ≤ 2
      → get_median qsort xs (length xs) ≡ none
  unfolding get_median
  get_median-short qsort xs keeps short =
      let size = length-sort_array qsort xs (length xs) keeps in
      let outside : get_elem? (sort_array qsort xs (length xs)) (length xs / 2 + 1) ≡ none =
        get_elem?-none (length xs / 2 + 1) (sort_array qsort xs (length xs)) (omega arith) in
      ground (arith, outside)
