-- ===== src/Overhead/Resolutions/Exact.antt =====
-- The resolutions that hpet_clock_resolutions.c prints are exact.
use cse.Base.{String, List, [], ◌∷◌, drop, refl, ℕ, ◌+◌, ◌*◌, ◌<◌, ◌≡◌, ap, ◌∙◌, arith}
use cse.Base.Int.{ℤ, pos, ◌+ℤ◌, ◌*ℤ◌}
use cse.Double.{Double, IsExact, ◌⊕◌, ◌⊗◌, of_int, to_ullong}
use cse.Machine.{
  Clock, realtime, realtime_coarse, monotonic, monotonic_raw, monotonic_coarse, process_cputime_id,
  thread_cputime_id, Timespec, int, clock_getres, printf, Kernel, Trace, Run, log, and_then, Ends,
}
use cse.Overhead.Resolutions.{resolution, print_resolution, main}

product : (s : ℕ) → pos 1000000000 *ℤ pos s ≡ pos (1000000000 * s)
unfolding ◌*ℤ◌
product s = ground arith

sum : (a b : ℕ) → pos a +ℤ pos b ≡ pos (a + b)
unfolding ◌+ℤ◌
sum a b = ground arith

-- the nanoseconds that the structure stands for
resolution-exact :
    {D : Type 0} ⦃d : Double D⦄
    → IsExact D
    → (sec nsec : ℕ) → sec < 9000000
    → nsec < 1000000000
    → resolution D (record { tv_sec = pos sec; tv_nsec = pos nsec }) ≡ 1000000000 * sec + nsec
unfolding resolution
resolution-exact {D} exact sec nsec h g =
    ap (λ b. to_ullong {D = D} (b ⊗ of_int (pos sec) ⊕ of_int (pos nsec)))
      (exact.decimal_zero 1000000000 (omega arith))
    ∙ ap (λ p. to_ullong {D = D} (p ⊕ of_int (pos nsec)))
        (exact.mul_exact (pos 1000000000) (pos sec) (omega arith) (omega arith)
            (rw product (omega arith))
          ∙ ap of_int (product sec))
    ∙ ap (λ p. to_ullong {D = D} p)
        (exact.add_exact (pos (1000000000 * sec)) (pos nsec) (omega arith) (omega arith)
            (rw sum (omega arith))
          ∙ ap of_int (sum (1000000000 * sec) nsec))
    ∙ exact.to_ullong_exact (1000000000 * sec + nsec) (omega arith)

abbrev pub normal : (sec nsec : ℕ) → Timespec
normal sec nsec = record { tv_sec = pos sec; tv_nsec = pos nsec }

-- Every clock has a resolution of less than nine million seconds, in the normal form of a time.
abbrev pub IsNormal : {D : Type 0} → Kernel D → Type 0
IsNormal {D} k =
    (t : Trace D) (c : Clock)
    → (sec nsec : ℕ) × (sec < 9000000)
      × (nsec < 1000000000)
      × ((k t (clock_getres c)).time ≡ normal sec nsec)

-- The trace goes on with a call of `clock_getres` for each clock and a line with the nanoseconds of its
-- answer.
abbrev pub Lines : {D : Type 0} → Kernel D → List (Clock × String) → Trace D → Trace D → Type 0
Lines k [] t t' = t' ≡ t
Lines k ((c, format) ∷ rest) t t' =
    (sec nsec : ℕ) × ((k t (clock_getres c)).time ≡ normal sec nsec)
    × Lines k rest
        (log k (log k t (clock_getres c))
          (printf format (int (pos (1000000000 * sec + nsec)) ∷ [])))
        t'

abbrev pub clocks : List (Clock × String)
clocks =
    (realtime, "CLOCK_REALTIME clock resolution: %llu nanoseconds\n")
    ∷ (realtime_coarse, "CLOCK_REALTIME_COARSE clock resolution: %llu nanoseconds\n")
    ∷ (monotonic, "CLOCK_MONOTONIC clock resolution: %llu nanoseconds\n")
    ∷ (monotonic_raw, "CLOCK_MONOTONIC_RAW clock resolution: %llu nanoseconds\n")
    ∷ (monotonic_coarse, "CLOCK_MONOTONIC_COARSE clock resolution: %llu nanoseconds\n")
    ∷ (process_cputime_id, "CLOCK_PROCESS_CPUTIME_ID clock resolution: %llu nanoseconds\n")
    ∷ (thread_cputime_id, "CLOCK_THREAD_CPUTIME_ID clock resolution: %llu nanoseconds\n")
    ∷ []

module _ {D : Type 0} ⦃d : Double D⦄ (exact : IsExact D) (k : Kernel D) (small : IsNormal k) where
  line :
      (c : Clock) (format : String) (rest : List (Clock × String)) (next : Trace D → Run D ℤ)
      (t : Trace D)
      → ((t' : Trace D) → Ends (λ status t''. (status ≡ pos 0) × Lines k rest t' t'') (next t'))
      → Ends
          (λ status t''. (status ≡ pos 0) × Lines k ((c, format) ∷ rest) t t'')
          (and_then (print_resolution c format k t) (λ _ t'. next t'))
  unfolding print_resolution
  line c format rest next t go =
      let (sec, nsec, s, n, e) = small t c in
      let (status, t'', run, (zero_status, lines)) = go (
        log k (log k t (clock_getres c))
          (printf format (int (pos (1000000000 * sec + nsec)) ∷ []))) in
      let value : resolution D (k t (clock_getres c)).time ≡ 1000000000 * sec + nsec =
        ap (resolution D) e ∙ resolution-exact exact sec nsec s n in
      (status, t'', rw value run, (zero_status, (sec, nsec, e, lines)))

  -- If `double` is exact on integers below 2 ^ 53 and each clock has a resolution of less than nine million
  -- seconds, hpet_clock_resolutions.c ends with status 0 and has printed, for its seven clocks in order,
  -- exactly the nanoseconds of the resolution that the system gave.
  pub main-Lines :
      (t : Trace D) → Ends (λ status t'. (status ≡ pos 0) × Lines k clocks t t') (main k t)
  unfolding main
  main-Lines t = line realtime _ (drop 1 clocks) _ t (λ t1.
      line realtime_coarse _ (drop 2 clocks) _ t1 (λ t2.
        line monotonic _ (drop 3 clocks) _ t2 (λ t3.
          line monotonic_raw _ (drop 4 clocks) _ t3 (λ t4.
            line monotonic_coarse _ (drop 5 clocks) _ t4 (λ t5.
              line process_cputime_id _ (drop 6 clocks) _ t5
                (λ t6. line thread_cputime_id _ [] _ t6 (λ t7. (_, _, refl, (refl, refl)))))))))
