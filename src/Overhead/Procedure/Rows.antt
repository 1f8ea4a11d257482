-- ===== src/Overhead/Procedure/Rows.antt =====
-- The table that procedure_call.c prints, and the time of a call, which is the middle of the sort.
use cse.Base.{
  ℕ, zero, suc, ◌+◌, ◌<◌, ◌*◌, ◌≡◌, refl, sym, some, List, [], ◌∷◌, String, length, get_elem?, ap,
  ◌∙◌, ◌++◌, arith,
}
use cse.Base.Arrays.{get_elem?-some}
use cse.Base.Int.{ℤ, pos}
use cse.Double.{Double, ◌⊖◌, ◌⊘◌, of_int}
use cse.Common.Time.{timespec_diff_to_nsecs}
use cse.Machine.{
  Timespec, readings, times, Stored, Stored-next, Stored-all, Call, clock_gettime, monotonic_raw,
  sched_setaffinity, printf, double, Kernel, Trace, done, log, calls, copies, M, Ends,
  Ends-for_range, write, for_range, ◌>>=◌,
}
use cse.Common.Stats.{Qsort}
use cse.Common.Stats.Median.{KeepsLength}
use cse.Overhead.Procedure.{
  iterations, measurements, double_compare, call_loop, measure_once, get_avg_measure,
}

-- The call returns 0 and does nothing else.
abbrev pub Returns : {D : Type 0} → Kernel D → (ℕ → M D ℤ) → Type 0
Returns {D} k cproc = (i : ℕ) (t : Trace D) → cproc i k t ≡ done (pos 0) t

abbrev pub clock : {D : Type 0} → Call D
clock = clock_gettime monotonic_raw

-- a time of a call, from two readings of the clock
abbrev pub time_per_call : (D : Type 0) ⦃d : Double D⦄ → (start stop : Timespec) → D
time_per_call D start stop = timespec_diff_to_nsecs start stop ⊘ of_int (pos iterations)

module _ {D : Type 0} ⦃d : Double D⦄ where
  Stored-start :
      (measures : List D) (before : List Timespec)
      → length measures ≡ measurements
      → Stored (time_per_call D) measurements 0 before measures before
  unfolding times
  Stored-start measures before size = record {
    new = [];
    rest = measures;
    read = refl;
    read_count = refl;
    filled = refl;
    value_count = refl;
    left = omega (arith, size);
  }

module _ {D : Type 0} ⦃d : Double D⦄ (k : Kernel D) where
  module _ (cproc : ℕ → M D ℤ) (returns : Returns k cproc) where
    call_loop-done : (n first : ℕ) (t : Trace D) → call_loop n first cproc k t ≡ done tt t
    unfolding call_loop for_range
    call_loop-done zero first t = refl
    call_loop-done (suc n) first t = rw (returns first t) (call_loop-done n (first + 1) t)

    abbrev Measured : Trace D → ℕ → List D → Trace D → Type 0
    Measured before i measured t =
        Stored (time_per_call D) measurements i (readings before) measured (readings t)
        × (calls t ≡ copies (2 * i) clock (calls before))

    once :
        (before : Trace D) (i : ℕ) (measured : List D) (t : Trace D)
        → i < measurements
        → Measured before i measured t
        → Ends
            (Measured before (i + 1))
            ((do time ← measure_once (call_loop iterations 0 cproc); write measured i time) k t)
    unfolding measure_once calls readings copies
    once before i measured t lt (stored, c) =
        let twice : 2 * (i + 1) ≡ suc (suc (2 * i)) = omega arith in
        let (measured', e, stored') =
          Stored-next (time_per_call D) measurements i (readings before) measured (readings t)
            (k t clock).time (k (log k t clock) clock).time lt stored in
        rw (call_loop-done iterations 0 (log k t clock), e, twice)
          (measured', _, refl, (stored', rw c refl))

    -- On an array of 300 elements `get_avg_measure` ends after 600 readings of the clock and nothing else,
    -- for a function that returns 0 without a call; it returns the element 150 of the array as `qsort`
    -- leaves the 300 times that the readings give, if `qsort` keeps the length.
    pub get_avg_measure-middle :
        (qsort : Qsort D) (measures : List D) (t : Trace D)
        → KeepsLength qsort
        → length measures ≡ measurements
        → Ends
            (λ result t'.
              (new : List Timespec) × (readings t' ≡ new ++ readings t)
              × (length new ≡ 600)
              × (length result.0 ≡ measurements)
              × (get_elem? (qsort double_compare (times (time_per_call D) new)) 150 ≡ some result.1)
              × (calls t' ≡ copies 600 clock (calls t)))
            (get_avg_measure cproc qsort measures k t)
    unfolding get_avg_measure copies
    get_avg_measure-middle qsort measures t keeps size =
        let (filled, t', run, (stored, c)) =
          Ends-for_range k (Measured t)
            (λ m measured. (do
              time ← measure_once (call_loop iterations 0 cproc)
              write measured m time))
            measurements (λ i measured s lt h. once t i measured s lt h) measurements 0 measures t
            refl (Stored-start measures (readings t) size, refl) in
        let (new, read, count, same, len) =
          Stored-all (time_per_call D) measurements (readings t) filled (readings t') stored in
        let kept = keeps double_compare filled in
        let (middle, e) =
          get_elem?-some 150 (qsort double_compare filled) (omega (arith, kept, len)) in
        rw (run, e)
          (
            (qsort double_compare filled, middle),
            t',
            refl,
            (
              new,
              read,
              count,
              omega (arith, kept, len),
              ap (λ l. get_elem? (qsort double_compare l) 150) (sym same) ∙ e,
              c,
            ),
          )

abbrev pub formats : List String
formats =
    "0 args: %f\n" ∷ "1 args: %f\n" ∷ "2 args: %f\n" ∷ "3 args: %f\n" ∷ "4 args: %f\n"
    ∷ "5 args: %f\n" ∷ "6 args: %f\n" ∷ "7 args: %f\n" ∷ []

module _ {D : Type 0} ⦃d : Double D⦄ where
  -- A line of the table behind six hundred new readings of the clock: the element 150 of the three hundred
  -- times of a call that these give, as `qsort` leaves them, less the baseline.
  pub record Row (qsort : Qsort D) (baseline : D) (format : String) (before after : Trace D)
      : Type 0 where
    pub new : List Timespec
    pub time : D
    pub read : readings after ≡ new ++ readings before
    pub read_count : length new ≡ 600
    pub middle : get_elem? (qsort double_compare (times (time_per_call D) new)) 150 ≡ some time
    pub printed :
        calls after
        ≡ printf format (double (time ⊖ baseline) ∷ []) ∷ copies 600 clock (calls before)

  -- the lines of these formats, in this order
  abbrev pub Table : Qsort D → D → List String → Trace D → Trace D → Type 0
  Table qsort baseline [] before after = after ≡ before
  Table qsort baseline (format ∷ formats) before after =
      (next : Trace D) × Row qsort baseline format before next
      × Table qsort baseline formats next after

  module _ (k : Kernel D) (t : Trace D) where
    -- before the first reading of the clock
    abbrev pub started : Trace D
    started = log k t (sched_setaffinity 3)

    -- the time that `main` prints first, from two readings of the clock
    abbrev pub baseline : D
    baseline = time_per_call D (k started clock).time (k (log k started clock) clock).time

    -- the trace from which the table starts
    abbrev pub baseline_printed : Trace D
    baseline_printed =
        log k (log k (log k started clock) clock)
          (printf "baseline loop: %f\n" (double baseline ∷ []))
