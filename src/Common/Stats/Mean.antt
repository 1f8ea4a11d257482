-- ===== src/Common/Stats/Mean.antt =====
-- `get_mean` and `get_stddev` against their definitions by folds over the array.
use cse.Base.{ℕ, ◌≡◌, none, some, List, length, take, leb, inl, inr, Bool-cases, if◌then◌else◌}
use mathlib.Core.List.{foldl}
use cse.Base.Arrays.{fold_array-if}
use cse.Base.Int.{pos}
use cse.Double.{Double, ◌⊕◌, ◌⊖◌, ◌⊗◌, ◌⊘◌, of_int, sqrt}
use cse.Common.Stats.{get_mean, get_stddev}

module _ {D : Type 0} ⦃d : Double D⦄ where
  -- the sum of x / size
  abbrev pub mean : (size : ℕ) → List D → D
  mean size xs = foldl (λ e x. e ⊕ x ⊘ of_int (pos size)) (of_int (pos 0)) xs

  -- the sum of the squared deviations from `mean`; the variance would be this sum divided by `size`
  abbrev pub sum_of_squares : (size : ℕ) → List D → D
  sum_of_squares size xs =
      foldl (λ v x. v ⊕ (x ⊖ mean size xs) ⊗ (x ⊖ mean size xs)) (of_int (pos 0)) xs

  -- `get_mean` is the mean of the first `size` elements, and reads outside the array if it has
  -- fewer.
  pub get_mean-mean :
      (xs : List D) (size : ℕ)
      → get_mean xs size ≡ (if leb size (length xs) then some (mean size (take size xs)) else none)
  unfolding get_mean
  get_mean-mean xs size = fold_array-if _ xs size _

  -- `get_stddev` is the root of the sum of the squared deviations of the first `size` elements,
  -- which it does not divide by `size`; it reads outside the array if it has fewer elements.
  pub get_stddev-sum_of_squares :
      (xs : List D) (size : ℕ)
      → get_stddev xs size
        ≡ (if leb size (length xs) then some (sqrt (sum_of_squares size (take size xs))) else none)
  unfolding get_stddev
  get_stddev-sum_of_squares xs size = elim (Bool-cases (leb size (length xs))) [
    | inl le ↦ rw (
      fold_array-if (λ e x. e ⊕ x ⊘ of_int (pos size)) xs size (of_int (pos 0)),
      le,
      get_stddev,
      fold_array-if (λ v x. v ⊕ (x ⊖ mean size (take size xs)) ⊗ (x ⊖ mean size (take size xs))) xs
          size (of_int (pos 0)),
      le,
    )
    | inr gt ↦
        rw (
          fold_array-if (λ e x. e ⊕ x ⊘ of_int (pos size)) xs size (of_int (pos 0)),
          gt,
          get_stddev,
        )
  ]
