-- ===== src/Overhead/Clocks/Lines.antt =====
-- One clock of clock_gettime.c: its readings and its line, or the reading that fails and the message.
use cse.Base.{
  ◌+◌, ◌/◌, ◌≡◌, refl, ap, some, ◌⊎◌, inl, inr, false, String, List, [], ◌∷◌, ◌++◌, length, arith,
}
use cse.Base.Int.{ℤ, pos, negsuc, is_zero}
use cse.Double.{Double}
use cse.Machine.{
  Clock, Timespec, Reply, double, clock_gettime, printf, Kernel, Trace, M, log, Ends, readings,
  calls, copies,
}
use cse.Common.Stats.{Qsort, get_median, sort_array}
use cse.Common.Stats.Median.{KeepsLength, get_median-inside, length-sort_array}
use cse.Overhead.Clocks.{clock_test_count, measure_clock}
use cse.Overhead.Clocks.Samples.{diffs_onto, sample_clock-Filled}

length-diffs_onto :
    {D : Type 0} ⦃d : Double D⦄ (new : List Timespec) (acc : List D)
    → length (diffs_onto new acc) ≡ length new / 2 + length acc
unfolding diffs_onto
length-diffs_onto [] acc = omega arith
length-diffs_onto (s ∷ []) acc = omega arith
length-diffs_onto {D} (stop ∷ start ∷ new) acc = omega (arith, length-diffs_onto {D = D} new)

-- a clock, the message if it cannot be read, and the format of its line
pub record Entry : Type 0 where
  pub clock : Clock
  pub failure : String
  pub format : String

module _ {D : Type 0} ⦃d : Double D⦄ (k : Kernel D) (qsort : Qsort ℤ) where
  -- Between the two traces the clock has been read twenty thousand times, and then its line has been
  -- printed, with what `get_median` gives for the differences of the pairs of readings, the oldest first.
  pub record Measured (entry : Entry) (t t' : Trace D) : Type 0 where
    pub new : List Timespec
    pub median : D
    pub sorted : List D
    pub read : readings t' ≡ new ++ readings t
    pub read_count : length new ≡ 20000
    pub value : get_median qsort (diffs_onto new []) 10000 ≡ some (median, sorted)
    pub called :
        calls t'
        ≡ printf entry.format (double median ∷ [])
          ∷ copies 20000 (clock_gettime entry.clock) (calls t)

  -- The last reading of the clock has failed, and the message has been printed.
  pub record Broken (entry : Entry) (t' : Trace D) : Type 0 where
    pub reply : Reply
    pub earlier : Trace D
    pub last :
        t'
        ≡ log k
            (record { call = clock_gettime entry.clock; reply = reply } ∷ earlier)
            (printf entry.failure [])
    pub not_ok : is_zero reply.value ≡ false

  -- All clocks of the list have been measured, one after the other.
  abbrev pub AllMeasured : List Entry → Trace D → Trace D → Type 0
  AllMeasured [] t t' = t' ≡ t
  AllMeasured (e ∷ entries) t t' = (u : Trace D) × Measured e t u × AllMeasured entries u t'

  -- The clocks have been measured up to one that could not be read.
  abbrev pub OneBroken : List Entry → Trace D → Trace D → Type 0
  OneBroken [] t t' = ⊥
  OneBroken (e ∷ entries) t t' =
      Broken e t' ⊎ ((u : Trace D) × Measured e t u × OneBroken entries u t')

  abbrev pub Outcome : List Entry → Trace D → ℤ → Trace D → Type 0
  Outcome entries t status t' =
      ((status ≡ pos 0) × AllMeasured entries t t') ⊎ ((status ≡ negsuc 0) × OneBroken entries t t')

  Outcome-cons :
      (e : Entry) (entries : List Entry) (t u : Trace D) (status : ℤ) (t' : Trace D)
      → Measured e t u
      → Outcome entries u status t'
      → Outcome (e ∷ entries) t status t'
  Outcome-cons e entries t u status t' m (inl (z, all)) = inl (z, (u, m, all))
  Outcome-cons e entries t u status t' m (inr (z, one)) = inr (z, inr (u, m, one))

  pub measure_clock-Outcome :
      KeepsLength qsort
      → (entry : Entry) (entries : List Entry) (result_array : List D) (continue : List D → M D ℤ)
        (t : Trace D)
      → length result_array ≡ clock_test_count
      → ((sorted : List D) (u : Trace D)
          → length sorted ≡ clock_test_count
          → Ends (Outcome entries u) (continue sorted k u))
      → Ends
          (Outcome (entry ∷ entries) t)
          (measure_clock qsort entry.clock entry.failure entry.format result_array continue k t)
  unfolding measure_clock readings calls
  measure_clock-Outcome keeps entry entries result_array continue t size next =
      let outcome = sample_clock-Filled {D = D} k entry.clock result_array t in
      elim (rw size at outcome) [
        | inl f ↦
            let filled : List D = diffs_onto f.new [] in
            let len : length filled ≡ clock_test_count =
              omega (arith, length-diffs_onto {D = D} f.new [], f.read_count) in
            let (median, e) = get_median-inside qsort filled keeps (omega (arith, len)) in
            let sorted = sort_array qsort filled clock_test_count in
            let inside : get_median qsort filled clock_test_count ≡ some (median, sorted) =
              rw len at e in
            let u = log k f.final (printf entry.format (double median ∷ [])) in
            let (status, t', run, rest) =
              next sorted u
                (omega (arith, length-sort_array qsort filled clock_test_count keeps, len)) in
            let measured : Measured entry t u = record {
              new = f.new;
              median = median;
              sorted = sorted;
              read = f.read;
              read_count = f.read_count;
              value = inside;
              called = ap (λ cs. printf entry.format (double median ∷ []) ∷ cs) f.called;
            } in
            rw (f.result, inside)
              (status, t', run, Outcome-cons entry entries t u status t' measured rest)
        | inr s ↦ rw s.result (
          _,
          _,
          refl,
          inr (
            refl,
            inl (record { reply = s.reply; earlier = s.earlier; last = refl; not_ok = s.not_ok }),
          ),
        )
      ]
