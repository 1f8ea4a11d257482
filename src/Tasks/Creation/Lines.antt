-- ===== src/Tasks/Creation/Lines.antt =====
-- A line of task_creation.c: what it prints comes from the readings of thirty measurements.
use cse.Base.{
  ℕ, suc, ◌+◌, ◌≡◌, refl, ap, sym, ◌∙◌, some, inl, true, String, List, [], ◌∷◌, ◌++◌, length,
  replicate, take, leb, arith,
}
use cse.Base.Int.{ℤ, pos}
use cse.Double.{Double, sqrt}
use cse.Machine.{
  Timespec, Call, text, int, double, printf, Kernel, Trace, M, calls, readings, for_range, write,
  times, Stored, Stored-next, Stored-none, Stored-all, ◌>>=◌,
}
use cse.Common.Stats.{Qsort, get_stddev, get_median, sort_array}
use cse.Common.Stats.Median.{KeepsLength, get_median-inside}
use cse.Common.Stats.Mean.{sum_of_squares, get_stddev-sum_of_squares}
use cse.Tasks.Creation.{measurements, num_threads_constant, measure_30_times}
use cse.Tasks.Creation.Children.{Goes, Goes-and_then, Goes-for_range}
use cse.Tasks.Creation.Batches.{batches, of_hundred, OneBatch}

module _ {D : Type 0} ⦃d : Double D⦄ where
  -- Between the two traces there are thirty measurements, each of the creation of a hundred tasks, and a line:
  -- it has the number that it was given, and the deviation and the median of the thirty times.
  pub record Line (qsort : Qsort ℤ) (create : ℕ → Call D) (num : ℕ) (name : String) (t t' : Trace D)
      : Type 0 where
    pub new : List Timespec
    pub std_dev : D
    pub median : D
    pub sorted : List D
    pub read : readings t' ≡ new ++ readings t
    pub read_count : length new ≡ 60
    pub deviation : get_stddev (times of_hundred new) 30 ≡ some std_dev
    pub middle : get_median qsort (times of_hundred new) 30 ≡ some (median, sorted)
    pub called :
        calls t'
        ≡ printf "%s (%d): std_dev = %f, median = %f\n"
            (text name ∷ int (pos num) ∷ double std_dev ∷ double median ∷ [])
          ∷ batches create 30 (calls t)

  module _ (k : Kernel D) (qsort : Qsort ℤ) (create : ℕ → Call D) (measure : ℕ → M D D) where
    -- after `i` of the thirty measurements
    abbrev Batched : Trace D → ℕ → List D → Trace D → Type 0
    Batched t i xs t' =
        Stored of_hundred 30 i (readings t) xs (readings t')
        × (calls t' ≡ batches create i (calls t))

    thirty-Batched :
        (garbage : D) (t : Trace D)
        → ((u : Trace D) → Goes k (λ time u'. OneBatch create time u u') (measure 100 k u))
        → Goes k (Batched t 30) (
            for_range measurements 0
              (λ m measured. (do time ← measure num_threads_constant; write measured m time))
              (replicate measurements garbage)
              k
              t)
    unfolding batches
    thirty-Batched garbage t once =
        Goes-for_range k (Batched t)
          (λ m measured. (do time ← measure num_threads_constant; write measured m time)) 30
          (λ i xs u lt (stored, called).
            Goes-and_then k (once u) (λ time u' (start, stop, read, e, c).
              let (xs', inside, next) =
                Stored-next of_hundred 30 i (readings t) xs (readings u) start stop lt stored in
              let same : i + 1 ≡ suc i = omega arith in
              rw (e, inside) (inl (xs', u', refl, (rw read next, rw (c, called, same) refl)))))
          30 0 (replicate measurements garbage) t refl
          (Stored-none of_hundred 30 garbage (readings t), refl)

    -- If `qsort` keeps the length of an array, thirty measurements give a line.
    pub measure_30_times-Line :
        KeepsLength qsort
        → (garbage : D) (num : ℕ) (name : String) (t : Trace D)
        → ((u : Trace D) → Goes k (λ time u'. OneBatch create time u u') (measure 100 k u))
        → Goes k
            (λ _ t'. Line qsort create num name t t')
            (measure_30_times qsort garbage measure num name k t)
    unfolding measure_30_times calls readings
    measure_30_times-Line keeps garbage num name t once =
        Goes-and_then k (thirty-Batched garbage t once) (λ xs u (stored, called).
          let (new, read, read_count, same, len) =
            Stored-all of_hundred 30 (readings t) xs (readings u) stored in
          let enough : leb 30 (length xs) ≡ true = ground (arith, len) in
          let std_dev = sqrt (sum_of_squares 30 (take 30 xs)) in
          let deviation : get_stddev xs 30 ≡ some std_dev =
            rw (get_stddev-sum_of_squares xs 30, enough) refl in
          let (median, inside) = get_median-inside qsort xs keeps (omega (arith, len)) in
          let middle : get_median qsort xs 30 ≡ some (median, sort_array qsort xs 30) =
            rw len at inside in
          rw (deviation, middle)
            (inl (
              tt,
              _,
              refl,
              record {
                new = new;
                std_dev = std_dev;
                median = median;
                sorted = sort_array qsort xs 30;
                read = read;
                read_count = read_count;
                deviation = ap (λ l. get_stddev l 30) (sym same) ∙ deviation;
                middle = ap (λ l. get_median qsort l 30) (sym same) ∙ middle;
                called = rw called refl;
              },
            )))
