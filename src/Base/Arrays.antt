-- ===== src/Base/Arrays.antt =====
-- Arrays as lists: the laws of access by index that the components share.
use cse.Base.Tests.{leb, leb→le, Bool-cases, if◌then◌else◌}
use cse.Base.Lists.{length, get_elem?, set?, set, take, drop}
use Prim.Native.Nat.{ℕ, zero, suc, ◌+◌, ◌≤◌, ◌<◌}
use Prim.Native.Nat.add
use mathlib.Core.Path.{◌≡◌, refl, ap}
use mathlib.Core.List.{List, [], ◌∷◌, ◌++◌, foldl}
use mathlib.Core.Logic.{inl, inr}
use mathlib.Core.Option.{Option, none, some}
use native.Mathlib.Decide.{dec_lt}
use native.Mathlib.Omega.{arith}

module _ {ℓ} {A : Type ℓ} where
  pub get_elem?-drop : (n i : ℕ) (xs : List A) → get_elem? (drop n xs) i ≡ get_elem? xs (n + i)
  get_elem?-drop zero i xs = rw add.zero
  get_elem?-drop (suc n) i [] = refl
  get_elem?-drop (suc n) i (x ∷ xs) = rw add.suc (get_elem?-drop n i xs)

  pub get_elem?-none : (i : ℕ) (xs : List A) → length xs ≤ i → get_elem? xs i ≡ none
  get_elem?-none i [] h = refl
  get_elem?-none zero (x ∷ xs) h = absurd (omega arith)
  get_elem?-none (suc i) (x ∷ xs) h = get_elem?-none i xs (omega arith)

  pub get_elem?-some : (i : ℕ) (xs : List A) → i < length xs → (x : A) × (get_elem? xs i ≡ some x)
  get_elem?-some i [] h = elim h [ ]
  get_elem?-some zero (x ∷ xs) h = (x, refl)
  get_elem?-some (suc i) (x ∷ xs) h = get_elem?-some i xs (omega arith)

  pub set?-some : (i : ℕ) (xs : List A) (v : A) → i < length xs → set? xs i v ≡ some (set xs i v)
  set?-some i [] v h = elim h [ ]
  set?-some zero (x ∷ xs) v h = refl
  set?-some (suc i) (x ∷ xs) v h = rw (set?-some i xs v (omega arith), set?)

  pub set?-append :
      (pre : List A) (x v : A) (rest : List A)
      → set? (pre ++ x ∷ rest) (length pre) v ≡ some ((pre ++ v ∷ []) ++ rest)
  set?-append [] x v rest = refl
  set?-append (p ∷ pre) x v rest = rw (set?-append pre x v rest, set?)

  pub lt_of_get_elem? : (i : ℕ) (xs : List A) (x : A) → get_elem? xs i ≡ some x → i < length xs
  lt_of_get_elem? i [] x h = cc
  lt_of_get_elem? zero (y ∷ xs) x h = omega arith
  lt_of_get_elem? (suc i) (y ∷ xs) x h = omega (arith, lt_of_get_elem? i xs x h)

  pub drop-cons :
      (i : ℕ) (xs : List A) (x : A) → get_elem? xs i ≡ some x → drop i xs ≡ x ∷ drop (suc i) xs
  drop-cons i [] x h = cc
  drop-cons zero (y ∷ xs) x h = cc
  drop-cons (suc i) (y ∷ xs) x h = drop-cons i xs x h

  -- for (i = first; i < first + n; i++) acc = step(acc, xs[i]);  `none` is a read outside the array
  unfoldable pub fold_array {κ} : {B : Type κ} → (B → A → B) → List A → (n first : ℕ) → B → Option B
  fold_array step xs zero first acc = some acc
  fold_array step xs (suc n) first acc = elim (get_elem? xs first) [
    | none ↦ none
    | some x ↦ fold_array step xs n (suc first) (step acc x)
  ]

  pub fold_array-foldl {κ} :
      {B : Type κ} (step : B → A → B) (xs : List A) (n first : ℕ) (acc : B)
      → first + n ≤ length xs
      → fold_array step xs n first acc ≡ some (foldl step acc (take n (drop first xs)))
  unfolding fold_array
  fold_array-foldl step xs zero first acc h = refl
  fold_array-foldl step xs (suc n) first acc h =
      let (x, e) = get_elem?-some first xs (omega arith) in
      rw (e, fold_array, drop-cons first xs x e)
        (fold_array-foldl step xs n (suc first) (step acc x) (omega arith))

  pub fold_array-none {κ} :
      {B : Type κ} (step : B → A → B) (xs : List A) (n first : ℕ) (acc : B)
      → length xs < first + n
      → first ≤ length xs
      → fold_array step xs n first acc ≡ none
  unfolding fold_array
  fold_array-none step xs zero first acc h le = absurd (omega arith)
  fold_array-none step xs (suc n) first acc h le = elim (dec_lt first (length xs)) [
    | yes lt ↦
        let (x, e) = get_elem?-some first xs lt in
        rw (e, fold_array) (fold_array-none step xs n (suc first) (step acc x) (omega arith) lt)
    | no ge ↦ rw (get_elem?-none first xs (omega arith), fold_array)
  ]

  -- the loop over the first `n` elements is the library's fold, or a read outside the array
  pub fold_array-if {κ} :
      {B : Type κ} (step : B → A → B) (xs : List A) (n : ℕ) (acc : B)
      → fold_array step xs n 0 acc
        ≡ (if leb n (length xs) then some (foldl step acc (take n xs)) else none)
  fold_array-if step xs n acc = elim (Bool-cases (leb n (length xs))) [
    | inl le ↦ rw le (fold_array-foldl step xs n 0 acc (omega (arith, leb→le)))
    | inr gt ↦ rw gt (fold_array-none step xs n 0 acc (ground arith) (omega arith))
  ]

  -- lists of one length with the same elements are equal
  pub list_ext :
      (xs ys : List A)
      → length xs ≡ length ys
      → ((i : ℕ) → i < length xs → get_elem? xs i ≡ get_elem? ys i)
      → xs ≡ ys
  list_ext [] [] h k = refl
  list_ext [] (y ∷ ys) h k = absurd (omega arith)
  list_ext (x ∷ xs) [] h k = absurd (omega arith)
  list_ext (x ∷ xs) (y ∷ ys) h k =
      let q : some x ≡ some y = k 0 (omega arith) in
      let e : x ≡ y = cc in
      let r : xs ≡ ys = list_ext xs ys (omega arith) (λ i lt. k (suc i) (omega arith)) in rw (e, r)

  pub take-length : (xs : List A) → take (length xs) xs ≡ xs
  take-length [] = refl
  take-length (x ∷ xs) = ap (λ l. x ∷ l) (take-length xs)
