-- ===== src/Base/Counting.antt =====
-- Lists of numbers up to order: how often each number occurs, and how a write changes that.
use cse.Base.Tests.{◌==◌, ltb, if◌then◌else◌}
use cse.Base.Lists.{length, get_elem?, set, length-set}
use cse.Base.Arrays.{lt_of_get_elem?}
use Prim.Native.Nat.{ℕ, zero, suc, ◌+◌, ◌<◌}
use mathlib.Core.Path.{◌≡◌, refl, ap, ◌∙◌}
use mathlib.Core.List.{List, [], ◌∷◌}
use mathlib.Core.Option.{some}
use native.Mathlib.Omega.{arith}

unfoldable pub count : ℕ → List ℕ → ℕ
count a [] = 0
count a (x ∷ xs) = (if a == x then 1 else 0) + count a xs

-- Two lists hold the same numbers, each as often.
abbrev pub SameItems : List ℕ → List ℕ → Type 0
SameItems xs ys = (a : ℕ) → count a xs ≡ count a ys

-- `n` numbers from `first` on
unfoldable pub upto : (n first : ℕ) → List ℕ
upto zero first = []
upto (suc n) first = first ∷ upto n (suc first)

pub length-upto : (n first : ℕ) → length (upto n first) ≡ n
unfolding upto
length-upto zero first = refl
length-upto (suc n) first = ap suc (length-upto n (suc first))

pub get_elem?-upto : (n first i : ℕ) → i < n → get_elem? (upto n first) i ≡ some (first + i)
unfolding upto
get_elem?-upto zero first i h = elim h [ ]
get_elem?-upto (suc n) first zero h = ap some (omega arith)
get_elem?-upto (suc n) first (suc i) h =
    get_elem?-upto n (suc first) i (omega arith) ∙ ap some (omega arith)

pub count-upto :
    (n first a : ℕ)
    → count a (upto n first) ≡ (if ltb a first then 0 else if ltb a (first + n) then 1 else 0)
unfolding count upto
count-upto zero first a = ground arith
count-upto (suc n) first a = ground (arith, count-upto n (suc first) a)

pub get_elem?-set :
    (xs : List ℕ) (i v p : ℕ)
    → i < length xs
    → get_elem? (set xs i v) p ≡ (if i == p then some v else get_elem? xs p)
get_elem?-set [] i v p h = elim h [ ]
get_elem?-set (x ∷ xs) zero v zero h = refl
get_elem?-set (x ∷ xs) zero v (suc p) h = ground arith
get_elem?-set (x ∷ xs) (suc i) v zero h = ground arith
get_elem?-set (x ∷ xs) (suc i) v (suc p) h = ground (arith, get_elem?-set xs i v p (omega arith))

-- A write takes one occurrence of the old value and adds one of the new.
pub count-set :
    (xs : List ℕ) (i v old a : ℕ)
    → get_elem? xs i ≡ some old
    → count a (set xs i v) + (if a == old then 1 else 0) ≡ count a xs + (if a == v then 1 else 0)
unfolding count
count-set [] i v old a h = cc
count-set (x ∷ xs) zero v old a h = ground arith
count-set (x ∷ xs) (suc i) v old a h = ground (arith, count-set xs i v old a h)

-- the swap that the source makes in three assignments
abbrev pub swapped : List ℕ → (i j : ℕ) → (at_i at_j : ℕ) → List ℕ
swapped xs i j at_i at_j = set (set xs i at_j) j at_i

module _ (xs : List ℕ) (i j at_i at_j : ℕ) (e : get_elem? xs i ≡ some at_i)
    (f : get_elem? xs j ≡ some at_j) where
  pub length-swapped : length (swapped xs i j at_i at_j) ≡ length xs
  length-swapped = length-set (set xs i at_j) j at_i ∙ length-set xs i at_j

  pub get_elem?-swapped :
      (p : ℕ)
      → get_elem? (swapped xs i j at_i at_j) p
        ≡ (if j == p then some at_i else if i == p then some at_j else get_elem? xs p)
  get_elem?-swapped p = ground (
    arith,
    get_elem?-set (set xs i at_j) j at_i p,
    get_elem?-set xs i at_j p,
    length-set xs i at_j,
    lt_of_get_elem? i xs at_i e,
    lt_of_get_elem? j xs at_j f,
  )

  pub swapped-SameItems : SameItems (swapped xs i j at_i at_j) xs
  swapped-SameItems a = ground (
    arith,
    count-set (set xs i at_j) j at_i at_j a,
    count-set xs i at_j at_i a,
    get_elem?-set xs i at_j j,
    lt_of_get_elem? i xs at_i e,
  )
