-- ===== src/Overhead/Clocks/Samples.antt =====
-- The loop over one clock: every slot of the array gets the time between a pair of readings, unless a
-- reading fails.
use cse.Base.{
  ℕ, zero, suc, ◌*◌, ◌≡◌, refl, ap, ◌∙◌, ◌⊎◌, inl, inr, false, List, [], ◌∷◌, ◌++◌, length,
  length-append, Bool-cases, arith,
}
use mathlib.Core.List.{append_assoc}
use cse.Base.Arrays.{set?-append}
use cse.Base.Int.{pos, is_zero}
use cse.Double.{Double, of_int}
use cse.Machine.{
  Clock, Timespec, Reply, clock_gettime, Kernel, Trace, Run, done, log, readings, calls, copies,
  copies-cons,
}
use cse.Overhead.Clocks.{Sampled, sampled, failed, clock_diff, sample_clock}

-- the differences of pairs of readings, newest first, in front of `acc`: so the oldest comes first
unfoldable pub diffs_onto : {D : Type 0} ⦃d : Double D⦄ → List Timespec → List D → List D
diffs_onto {D} (stop ∷ start ∷ older) acc =
    diffs_onto older (of_int (pos (clock_diff D start stop)) ∷ acc)
diffs_onto _ acc = acc

copies-pair :
    {A : Type 0} (n : ℕ) (a : A) (l : List A)
    → copies (2 * n) a (a ∷ a ∷ l) ≡ copies (2 * suc n) a l
unfolding copies
copies-pair n a l =
    let e : 2 * suc n ≡ suc (suc (2 * n)) = omega arith in
    rw e (copies-cons (2 * n) a (a ∷ l) ∙ ap (λ m. a ∷ m) (copies-cons (2 * n) a l))

module _ {D : Type 0} ⦃d : Double D⦄ where
  diffs_onto-append :
      (m : ℕ) (new : List Timespec) (start stop : Timespec) (acc : List D)
      → length new ≡ 2 * m
      → diffs_onto (new ++ stop ∷ start ∷ []) acc
        ≡ of_int (pos (clock_diff D start stop)) ∷ diffs_onto new acc
  unfolding diffs_onto
  diffs_onto-append m [] start stop acc e = refl
  diffs_onto-append m (r ∷ []) start stop acc e = absurd (omega arith)
  diffs_onto-append zero (r ∷ s ∷ new) start stop acc e = absurd (omega arith)
  diffs_onto-append (suc m) (r ∷ s ∷ new) start stop acc e =
      diffs_onto-append m new start stop (of_int (pos (clock_diff D s r)) ∷ acc) (omega arith)

  -- The loop has filled the rest of the array with the differences of its readings, two for each
  -- slot.
  pub record Filled (clock : Clock) (pre : List D) (n : ℕ) (t : Trace D) (run : Run D (Sampled D))
      : Type 0 where
    pub new : List Timespec
    pub final : Trace D
    pub result : run ≡ done (sampled (pre ++ diffs_onto new [])) final
    pub read : readings final ≡ new ++ readings t
    pub read_count : length new ≡ 2 * n
    pub called : calls final ≡ copies (2 * n) (clock_gettime clock) (calls t)

  -- The last call was a reading of the clock, and it failed.
  pub record Stopped (clock : Clock) (run : Run D (Sampled D)) : Type 0 where
    pub reply : Reply
    pub earlier : Trace D
    pub result : run ≡ done failed (record { call = clock_gettime clock; reply = reply } ∷ earlier)
    pub not_ok : is_zero reply.value ≡ false

  module _ (k : Kernel D) (clock : Clock) (t : Trace D) where
    -- the trace after the first reading of a round, and the value that the round stores
    abbrev once : Trace D
    once = log k t (clock_gettime clock)

    abbrev stored : D
    stored =
        of_int
          (pos (clock_diff D (k t (clock_gettime clock)).time (k once (clock_gettime clock)).time))

    Filled-widen :
        (pre : List D) (n : ℕ) (run : Run D (Sampled D))
        → Filled clock (pre ++ stored ∷ []) n (log k once (clock_gettime clock)) run
        → Filled clock pre (suc n) t run
    unfolding readings calls
    Filled-widen pre n run f =
        let start = (k t (clock_gettime clock)).time in
        let stop = (k once (clock_gettime clock)).time in
        record {
          new = f.new ++ stop ∷ start ∷ [];
          final = f.final;
          result = rw (diffs_onto-append n f.new start stop [] f.read_count) (
              f.result
              ∙ ap (λ l. done (sampled l) f.final)
                  (append_assoc pre (stored ∷ []) (diffs_onto f.new [])));
          read = rw append_assoc f.read;
          read_count = omega (arith, length-append f.new (stop ∷ start ∷ []), f.read_count);
          called = f.called ∙ copies-pair n (clock_gettime clock) (calls t);
        }

  sample_from :
      (k : Kernel D) (clock : Clock) (pre rest : List D) (n : ℕ) (t : Trace D)
      → length rest ≡ n
      → Filled clock pre n t (sample_clock clock n (length pre) (pre ++ rest) k t)
        ⊎ Stopped clock (sample_clock clock n (length pre) (pre ++ rest) k t)
  unfolding sample_clock diffs_onto readings copies
  sample_from k clock pre [] zero t e =
      inl (record {
        new = [];
        final = t;
        result = refl;
        read = refl;
        read_count = refl;
        called = refl;
      })
  sample_from k clock pre [] (suc n) t e = absurd (omega arith)
  sample_from k clock pre (x ∷ rest) zero t e = absurd (omega arith)
  sample_from k clock pre (x ∷ rest) (suc n) t e =
      elim (Bool-cases (is_zero (k t (clock_gettime clock)).value)) [
        | inr f ↦ rw f (inr (record { reply = _; earlier = t; result = refl; not_ok = f }))
        | inl f ↦
            rw f
              (elim (Bool-cases
                (is_zero (k (log k t (clock_gettime clock)) (clock_gettime clock)).value)) [
                  | inr g ↦ rw g (
                      inr (record {
                        reply = _;
                        earlier = log k t (clock_gettime clock);
                        result = refl;
                        not_ok = g;
                      }))
                  | inl g ↦
                      let v = stored k clock t in
                      let len : length (pre ++ v ∷ []) ≡ suc (length pre) =
                        omega (arith, length-append pre (v ∷ [])) in
                      rw (g, set?-append pre x v rest, ← len)
                        (elim (sample_from k clock (pre ++ v ∷ []) rest n
                          (log k (once k clock t) (clock_gettime clock)) (omega arith)) [
                            | inl h ↦ inl (Filled-widen k clock t pre n _ h)
                            | inr h ↦ inr h
                          ])
                ])
      ]

  -- On an array with one slot for each round the loop of `measure_clocks` for one clock ends. Either
  -- it has read the clock twice for each slot, and the array holds the differences, the oldest first;
  -- or a reading failed, and that was the last call.
  pub sample_clock-Filled :
      (k : Kernel D) (clock : Clock) (result_array : List D) (t : Trace D)
      → Filled clock []
          (length result_array)
          t
          (sample_clock clock (length result_array) 0 result_array k t)
        ⊎ Stopped clock (sample_clock clock (length result_array) 0 result_array k t)
  sample_clock-Filled k clock result_array t =
      sample_from k clock [] result_array (length result_array) t refl
