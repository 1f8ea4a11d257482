-- ===== src/Common/Stats.antt =====
-- The statistics of common.c. Pointers are lists, with the size that the caller passes beside them;
-- `none` is a read outside the array.
pub mod Mean
pub mod Median
pub mod Compare
use cse.Base.{ℕ, ◌+◌, ◌*◌, ◌/◌, Option, none, some, List, [], ◌∷◌, ◌++◌, take, drop, get_elem?}
use cse.Base.Arrays.{fold_array}
use cse.Base.Int.{ℤ, pos, ◌-ℤ◌, wrap_int}
use cse.Double.{Double, ◌⊕◌, ◌⊖◌, ◌⊗◌, ◌⊘◌, of_int, sqrt}
use cse.Machine.{double, M, pure, and_then, ◌>>=◌, ◌>>◌, print, read, for_range}

-- The subtraction of two `int`s; gcc's code wraps round where C leaves the result open.
unfoldable pub compare_function : ℤ → ℤ → ℤ
compare_function a b = wrap_int (a -ℤ b)

-- `qsort` of the C library, on arrays with elements of one type
abbrev pub Qsort : Type 0 → Type 0
Qsort A = (A → A → ℤ) → List A → List A

module _ {D : Type 0} where
  unfoldable pub print_results : List D → (array_size : ℕ) → M D (Unit {0})
  print_results result_array array_size = do
    for_range array_size 0 (λ n _. do x ← read result_array n; print "%lf " (double x ∷ [])) tt
    print "\n" []

module _ {D : Type 0} ⦃d : Double D⦄ where
  unfoldable pub get_mean : List D → (array_size : ℕ) → Option D
  get_mean result_array array_size =
      fold_array (λ e_x x. e_x ⊕ x ⊘ of_int (pos array_size)) result_array array_size 0
        (of_int (pos 0))

  unfoldable pub get_stddev : List D → (array_size : ℕ) → Option D
  get_stddev result_array array_size =
      elim (fold_array (λ e_x x. e_x ⊕ x ⊘ of_int (pos array_size)) result_array array_size 0
        (of_int (pos 0))) [
          | none ↦ none
          | some e_x ↦
              elim (fold_array (λ var x. let dev = x ⊖ e_x in var ⊕ dev ⊗ dev) result_array
                array_size 0 (of_int (pos 0))) [ none ↦ none | some var ↦ some (sqrt var) ]
        ]

  -- an array of `double` as the array of `int` that occupies the same bytes, and back
  unfoldable pub to_ints : List D → List ℤ
  to_ints [] = []
  to_ints (x ∷ xs) = d.low x ∷ d.high x ∷ to_ints xs

  unfoldable pub of_ints : List ℤ → List D
  of_ints (lo ∷ hi ∷ r) = d.of_words lo hi ∷ of_ints r
  of_ints _ = []

  -- qsort(result_array, array_size, sizeof(int), compare_function)
  unfoldable pub sort_array : Qsort ℤ → List D → (array_size : ℕ) → List D
  sort_array qsort result_array array_size = of_ints (
      qsort compare_function (take array_size (to_ints result_array))
      ++ drop array_size (to_ints result_array))

  -- The median, and the array as the sort leaves it.
  unfoldable pub get_median : Qsort ℤ → List D → (array_size : ℕ) → Option (D × List D)
  get_median qsort result_array array_size =
      let sorted = sort_array qsort result_array array_size in
      elim (get_elem? sorted (array_size / 2)) [
        | none ↦ none
        | some result_1 ↦ elim (get_elem? sorted (array_size / 2 + 1)) [
          | none ↦ none
          | some result_2 ↦ some ((result_1 ⊕ result_2) ⊘ of_int (pos 2), sorted)
        ]
      ]
