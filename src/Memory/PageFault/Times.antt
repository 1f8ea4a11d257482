-- ===== src/Memory/PageFault/Times.antt =====
-- The times that page_fault_access.c measures, as differences of the readings of the clock.
use cse.Base.{
  ℕ, zero, suc, ◌+◌, ◌*◌, ◌/◌, ◌≡◌, refl, ap, ◌∙◌, List, [], ◌∷◌, ◌++◌, length, replicate, ltb,
  Bool-cases, inl, inr, arith,
}
use cse.Base.Int.{ℤ}
use cse.Double.{Double}
use cse.Machine.{
  Timespec, clock_gettime, monotonic_raw, load, Kernel, Trace, done, log, readings, pure, ◌>>=◌,
  for_range, write, Ends, Ends-for_range, times, Stored, Stored-next, Stored-none, Stored-all,
}
use cse.Common.Time.{timespec_diff_to_nsecs}
use cse.Memory.Mapped.{page_size, touch, measure_access}
use cse.Memory.Mapped.Touch.{touch-loads}

module _ {D : Type 0} (k : Kernel D) (mem : ℤ) (num_pages : ℕ) where
  touch-readings :
      (fuel i : ℕ) (t t' : Trace D)
      → touch fuel mem num_pages i k t ≡ done tt t'
      → readings t' ≡ readings t
  unfolding touch readings
  touch-readings zero i t t' e = cc
  touch-readings (suc fuel) i t t' e = elim (Bool-cases (ltb i num_pages)) [
    | inl more ↦ touch-readings fuel (i + page_size) (log k t (load mem i)) t' (rw more at e)
    | inr over ↦ let same = rw over at e in cc
  ]

module _ {D : Type 0} ⦃d : Double D⦄ (k : Kernel D) (mem : ℤ) (num_pages : ℕ) where
  -- The time is that between two readings of the clock, the only ones.
  abbrev pub OneTime : D → Trace D → Trace D → Type 0
  OneTime time t t' =
      (start stop : Timespec) × (readings t' ≡ stop ∷ start ∷ readings t)
      × (time ≡ timespec_diff_to_nsecs start stop)

  pub measure_access-OneTime :
      (t : Trace D) → Ends (λ time t'. OneTime time t t') (measure_access mem num_pages k t)
  unfolding measure_access readings
  measure_access-OneTime t =
      let s = log k t (clock_gettime monotonic_raw) in
      let (after, run, _) =
        touch-loads k mem num_pages (num_pages + 1) ((num_pages + 4095) / 4096) 0 s (omega arith)
          (omega arith) (omega arith) in
      let e = touch-readings k mem num_pages (num_pages + 1) 0 s after run in
      rw run (
        _,
        _,
        refl,
        (_, _, ap (λ older. (k after (clock_gettime monotonic_raw)).time ∷ older) e, refl),
      )

  -- after `n` measurements that nothing stores
  abbrev pub Read : ℕ → Trace D → Trace D → Type 0
  Read n t t' = (new : List Timespec) × (readings t' ≡ new ++ readings t) × (length new ≡ 2 * n)

  pub warm_up-Read :
      (t : Trace D)
      → Ends
          (λ _ t'. Read 15 t t')
          (for_range 15 0 (λ _ _. (do _ ← measure_access mem num_pages; pure tt)) tt k t)
  warm_up-Read t =
      Ends-for_range k (λ i _ t'. Read i t t') _ 15
        (λ i _ s _ (new, e, len).
          let (_, s', run, (start, stop, f, _)) = measure_access-OneTime s in
          rw run (
            tt,
            s',
            refl,
            (stop ∷ start ∷ new, f ∙ ap (λ l. stop ∷ start ∷ l) e, omega (arith, len)),
          ))
        15 0 tt t refl ([], refl, refl)

  pub hot_times-Stored :
      (garbage : D) (t : Trace D)
      → Ends
          (λ hot t'.
            (new : List Timespec) × (readings t' ≡ new ++ readings t)
            × (length new ≡ 60)
            × (hot ≡ times timespec_diff_to_nsecs new)
            × (length hot ≡ 30))
          (for_range 30 0
            (λ i hot. (do time ← measure_access mem num_pages; write hot i time))
            (replicate 30 garbage)
            k
            t)
  hot_times-Stored garbage t =
      let value = timespec_diff_to_nsecs in
      let before = readings t in
      let (hot, t', run, stored) =
        Ends-for_range k (λ i hot s. Stored value 30 i before hot (readings s)) _ 30
          (λ i hot s lt h.
            let (time, s', run, (start, stop, f, g)) = measure_access-OneTime s in
            let (hot', e, next) = Stored-next value 30 i before hot (readings s) start stop lt h in
            rw (run, g, e) (hot', s', refl, rw f next))
          30 0 (replicate 30 garbage) t refl (Stored-none value 30 garbage before) in
      (hot, t', run, Stored-all value 30 before hot (readings t') stored)
