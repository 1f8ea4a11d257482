-- ===== src/Tasks/Rounds/Order.antt =====
-- The order of the calls in a round of either side.
use cse.Base.{ℕ, ◌≡◌, refl, ◌⊎◌, inl, inr, not, true, List, ◌∷◌}
use cse.Base.Int.{ℤ, is_zero}
use cse.Machine.{
  Call, sched_yield, store, futex_wait, futex_wake, Kernel, Trace, Run, done, looping, log, calls,
}
use cse.Tasks.Rounds.{wait_loop, wake_loop, child_round}
use cse.Tasks.Rounds.Retries.{attempts, retry-cases}

module _ {D : Type 0} (k : Kernel D) (futex : ℤ) where
  -- The run ended with a wait on `word` that returned 0 as its last call.
  pub record EndsWaiting (word : ℕ) (run : Run D (Unit {0})) (cs : List (Call D)) : Type 0 where
    pub failures : ℕ
    pub earlier : Trace D
    pub called : calls earlier ≡ attempts failures (futex_wait futex word) cs
    pub success : is_zero (k earlier (futex_wait futex word)).value ≡ true
    pub result : run ≡ done tt (log k earlier (futex_wait futex word))

  -- The run ended with a wake-up that woke somebody as its last call.
  pub record EndsWaking (run : Run D (Unit {0})) (cs : List (Call D)) : Type 0 where
    pub failures : ℕ
    pub earlier : Trace D
    pub called : calls earlier ≡ attempts failures (futex_wake futex 1) cs
    pub success : not (is_zero (k earlier (futex_wake futex 1)).value) ≡ true
    pub result : run ≡ done tt (log k earlier (futex_wake futex 1))

  abbrev pub GivesOut : Run D (Unit {0}) → Type 0
  GivesOut run = (t' : Trace D) × (run ≡ looping t')

  waiting :
      (fuel word : ℕ) (t : Trace D)
      → EndsWaiting word (wait_loop fuel futex word k t) (calls t)
        ⊎ GivesOut (wait_loop fuel futex word k t)
  unfolding wait_loop
  waiting fuel word t = elim (retry-cases k is_zero (futex_wait futex word) fuel t) [
    | inl s ↦ inl (record {
      failures = s.failures;
      earlier = s.earlier;
      called = s.called;
      success = s.success;
      result = s.result;
    })
    | inr g ↦ inr (g.final, g.result)
  ]

  waking :
      (fuel : ℕ) (t : Trace D)
      → EndsWaking (wake_loop fuel futex k t) (calls t) ⊎ GivesOut (wake_loop fuel futex k t)
  unfolding wake_loop
  waking fuel t = elim (retry-cases k (λ woken. not (is_zero woken)) (futex_wake futex 1) fuel t) [
    | inl s ↦ inl (record {
      failures = s.failures;
      earlier = s.earlier;
      called = s.called;
      success = s.success;
      result = s.result;
    })
    | inr g ↦ inr (g.final, g.result)
  ]

  -- A round of the child that ends has yielded, waited on 0xA until a wait returned 0, then stored 0xB,
  -- and then tried to wake the parent until somebody was woken. Otherwise it uses up its fuel.
  pub child_round-order :
      (fuel : ℕ) (t : Trace D)
      → ((waited : Trace D) × EndsWaiting 10
            (wait_loop fuel futex 10 k (log k t sched_yield))
            (sched_yield ∷ calls t)
          × (wait_loop fuel futex 10 k (log k t sched_yield) ≡ done tt waited)
          × EndsWaking (child_round fuel futex k t) (store futex 11 ∷ calls waited))
        ⊎ GivesOut (child_round fuel futex k t)
  unfolding child_round calls
  child_round-order fuel t = elim (waiting fuel 10 (log k t sched_yield)) [
    | inr (t', e) ↦ inr (t', rw e refl)
    | inl w ↦
        let waited = log k w.earlier (futex_wait futex 10) in
        elim (waking fuel (log k waited (store futex 11))) [
          | inr (t', e) ↦ inr (t', rw (w.result, e) refl)
          | inl v ↦ inl (
            waited,
            w,
            w.result,
            record {
              failures = v.failures;
              earlier = v.earlier;
              called = v.called;
              success = v.success;
              result = rw (w.result, v.result) refl;
            },
          )
        ]
  ]
