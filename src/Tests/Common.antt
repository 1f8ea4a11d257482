-- ===== src/Tests/Common.antt =====
-- The functions of common.c at concrete inputs.
use cse.Base.{
  ℕ, ◌≡◌, ◌*◌, refl, some, none, [], ◌∷◌, List, arith, leb, length, take, if◌then◌else◌, not,
}
use cse.Base.Int.{ℤ, pos, negsuc, ◌-ℤ◌, ltb_ℤ, is_negative}
use cse.Double.{◌⊕◌, ◌⊘◌, of_int, sqrt}
use cse.Double.Milli.{Milli, milli, milli_double, Milli-IsExact}
use cse.Machine.{Timespec}
use cse.Common.Setup.{init_test}
use cse.Common.Setup.Laws.{Outcome, init_test_lem}
use cse.Common.Time.{timespec_diff_to_nsecs}
use cse.Common.Time.Exact.{nanoseconds, IsClose, timespec_diff_to_nsecs-exact}
use cse.Common.Stats.{compare_function, get_stddev, get_median, sort_array}
use cse.Common.Stats.Compare.{fits, compare_function-lt}
use cse.Common.Stats.Mean.{sum_of_squares, get_stddev-sum_of_squares}
use cse.Common.Stats.Median.{get_median-unsorted, get_median-short, IsSplit}
use cse.Tests.Kernels.{steady}

abbrev start : Timespec
start = record { tv_sec = pos 12; tv_nsec = pos 999999900 }

abbrev end : Timespec
end = record { tv_sec = pos 13; tv_nsec = pos 100 }

near : IsClose start end
unfolding ◌-ℤ◌
near = record {
  start_IsNormal = omega arith;
  end_IsNormal = omega arith;
  later = omega arith;
  earlier = omega arith;
}

timespec_diff_to_nsecs-exact_example :
    timespec_diff_to_nsecs start end ≡ of_int {D = Milli} (nanoseconds end -ℤ nanoseconds start)
timespec_diff_to_nsecs-exact_example = timespec_diff_to_nsecs-exact near Milli-IsExact

init_test_lem_example : Outcome 3 [] (init_test steady [])
init_test_lem_example = init_test_lem steady []

-- 2147483647 is above -1, and the difference does not fit
compare_function-lt_example : is_negative (compare_function (pos 2147483647) (negsuc 0)) ≡ (
    if fits (pos 2147483647 -ℤ negsuc 0)
    then ltb_ℤ (pos 2147483647) (negsuc 0)
    else not (ltb_ℤ (pos 2147483647) (negsuc 0)))
compare_function-lt_example =
    compare_function-lt (pos 2147483647) (negsuc 0) (omega arith) (omega arith)

abbrev whole : ℕ → Milli
whole n = milli (pos n)

abbrev four : List Milli
four = whole 9000 ∷ whole 1000 ∷ whole 7000 ∷ whole 2000 ∷ []

get_stddev-sum_of_squares_example :
    get_stddev four 4
    ≡ (if leb 4 (length four) then some (sqrt (sum_of_squares 4 (take 4 four))) else none)
get_stddev-sum_of_squares_example = get_stddev-sum_of_squares four 4

-- a `qsort` that leaves its array alone
abbrev leave : (ℤ → ℤ → ℤ) → List ℤ → List ℤ
leave compare xs = xs

four-IsSplit : IsSplit four
unfolding milli_double
four-IsSplit = (refl, (refl, (refl, (refl, tt))))

-- the median of 9, 1, 7 and 2 is given as (7 + 2) / 2
get_median-unsorted_example :
    get_median leave four (2 * 2)
    ≡ some ((whole 7000 ⊕ whole 2000) ⊘ of_int (pos 2), sort_array leave four (2 * 2))
get_median-unsorted_example =
    get_median-unsorted leave four 2 (whole 7000) (whole 2000) four-IsSplit (λ compare xs. refl)
      refl refl

get_median-short_example : get_median leave (whole 3 ∷ whole 4 ∷ []) 2 ≡ none
get_median-short_example =
    get_median-short leave (whole 3 ∷ whole 4 ∷ []) (λ compare xs. refl) (omega arith)
