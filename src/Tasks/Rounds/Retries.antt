-- ===== src/Tasks/Rounds/Retries.antt =====
-- The loops that repeat a futex call until it succeeds.
use cse.Base.{ℕ, zero, suc, ◌<◌, ◌≡◌, refl, ◌⊎◌, inl, inr, Bool, true, Bool-cases, List, ◌∷◌, arith}
use cse.Base.Int.{ℤ}
use cse.Machine.{Call, sched_yield, Kernel, Trace, Run, done, looping, log, calls}
use cse.Tasks.Rounds.{retry}

-- `n` attempts, each followed by a yield, after the calls `cs`
unfoldable pub attempts : {D : Type 0} → ℕ → Call D → List (Call D) → List (Call D)
attempts zero c cs = cs
attempts (suc n) c cs = attempts n c (sched_yield ∷ c ∷ cs)

module _ {D : Type 0} (k : Kernel D) (is_done : ℤ → Bool) (c : Call D) where
  -- The last attempt succeeded, after fewer failures than there was fuel.
  pub record Succeeded (fuel : ℕ) (t : Trace D) (run : Run D (Unit {0})) : Type 0 where
    pub failures : ℕ
    pub earlier : Trace D
    pub few : failures < fuel
    pub called : calls earlier ≡ attempts failures c (calls t)
    pub success : is_done (k earlier c).value ≡ true
    pub result : run ≡ done tt (log k earlier c)

  -- Every attempt failed.
  pub record GaveOut (fuel : ℕ) (t : Trace D) (run : Run D (Unit {0})) : Type 0 where
    pub final : Trace D
    pub called : calls final ≡ attempts fuel c (calls t)
    pub result : run ≡ looping final

  -- A retry loop ends with the first attempt that succeeds, and not before: it has yielded after each
  -- failure; with no success it uses up its fuel.
  pub retry-cases :
      (fuel : ℕ) (t : Trace D)
      → Succeeded fuel t (retry fuel is_done c k t) ⊎ GaveOut fuel t (retry fuel is_done c k t)
  unfolding retry calls attempts
  retry-cases zero t = inr (record { final = t; called = refl; result = refl })
  retry-cases (suc fuel) t = elim (Bool-cases (is_done (k t c).value)) [
    | inl e ↦ rw e (
        inl (record {
          failures = 0;
          earlier = t;
          few = omega arith;
          called = refl;
          success = e;
          result = refl;
        }))
    | inr e ↦ rw e (elim (retry-cases fuel (log k (log k t c) sched_yield)) [
      | inl s ↦ inl (record {
        failures = suc s.failures;
        earlier = s.earlier;
        few = omega (arith, s.few);
        called = s.called;
        success = s.success;
        result = s.result;
      })
      | inr g ↦ inr (record { final = g.final; called = g.called; result = g.result })
    ])
  ]
