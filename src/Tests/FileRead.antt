-- ===== src/Tests/FileRead.antt =====
-- The functions of file_read.c at concrete inputs.
use cse.Base.{ℕ, ◌≡◌, refl, ◌∷◌, [], List, true, some, arith}
use cse.Base.Int.{pos}
use cse.Base.Counting.{SameItems, upto}
use cse.Double.Milli.{Milli, milli_double}
use cse.FileRead.Sizes.{IsReady, SizesRead}
use cse.FileRead.Whole.{preads, main-SizesRead}
use cse.Machine.{log, printf, text, tally, Trace, done, calls, value?, copies, rand}
use cse.FileRead.{shuffle, measure_fc_access, main}
use cse.FileRead.Shuffle.{NoneInPlace, shuffle-NoneInPlace}
use cse.FileRead.Blocks.{Measured, measure_fc_access-Measured}
use cse.Tests.Kernels.{steady}
use cse.Tests.Started.{set_up, steady_started}

-- `rand` returns 7 throughout
shuffle_four : value? (shuffle 3 (upto 4 0) steady []) ≡ some (2 ∷ 0 ∷ 3 ∷ 1 ∷ [])
unfolding shuffle upto value?
shuffle_four = refl

shuffle-NoneInPlace_example :
    (xs : List ℕ) × (t' : Trace Milli) × (shuffle 3 (upto 4 0) steady [] ≡ done xs t')
    × SameItems xs (upto 4 0)
    × NoneInPlace xs
    × (calls t' ≡ copies 3 rand (calls []))
shuffle-NoneInPlace_example = shuffle-NoneInPlace steady (λ t. refl) 2 []

measure_fc_access-Measured_example :
    Measured steady [] (pos 3) 8 true (measure_fc_access 99 (pos 3) 8 true steady [])
measure_fc_access-Measured_example =
    measure_fc_access-Measured steady (λ t. refl) 99 (pos 3) 8 (omega arith) true [] (λ t. refl)

steady-IsReady : IsReady steady
steady-IsReady = record {
  commands_ok = λ t command args. refl;
  opens = λ t name. refl;
  found = λ t. refl;
  nonneg = λ t. refl;
}

main-SizesRead_example :
    (t' : Trace Milli) × (main 99 ("test.file" ∷ []) steady [] ≡ done (pos 0) t')
    × SizesRead steady "test.file" 10
        (log steady (set_up steady) (printf "\nSequential on file %s:\n" (text "test.file" ∷ [])))
        t'
    × (tally preads (calls t') ≡ 523776)
unfolding calls tally
main-SizesRead_example =
    main-SizesRead steady 99 "test.file" [] (set_up steady) steady-IsReady steady_started
