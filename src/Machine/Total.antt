-- ===== src/Machine/Total.antt =====
-- Total correctness: a run ends by itself, and what then holds of its result and of its trace.
use cse.Base.{ℕ, zero, suc, ◌+◌, ◌*◌, ◌<◌, ◌≡◌, refl, sym, ◌∙◌, List, [], ◌∷◌, arith}
use mathlib.Core.Path.{subst}
use cse.Machine.Calls.{Call, Trace, Kernel}
use cse.Machine.Monad.{Run, done, M, and_then}
use cse.Machine.Loops.{for_range}
use cse.Machine.Laws.{copies}

abbrev pub Ends : {D A : Type 0} → (A → Trace D → Type 0) → Run D A → Type 0
Ends {D} {A} P run = (a : A) × (t : Trace D) × (run ≡ done a t) × P a t

module _ {D A B : Type 0} where
  pub Ends-and_then :
      {P : A → Trace D → Type 0} {Q : B → Trace D → Type 0} {run : Run D A}
      {f : A → Trace D → Run D B}
      → Ends P run
      → ((a : A) (t : Trace D) → P a t → Ends Q (f a t))
      → Ends Q (and_then run f)
  Ends-and_then {f} (a, t, e, p) next = let (b, s, e', q) = next a t p in (b, s, rw e e', q)

abbrev AtEnd : {D A : Type 0} → (A → Trace D → Type 0) → Run D A → Type 0
AtEnd P (done a t) = P a t
AtEnd P _ = ⊥

module _ {D A : Type 0} {P Q : A → Trace D → Type 0} where
  -- Two things that hold where a run ends hold there both.
  pub Ends-both : {run : Run D A} → Ends P run → Ends Q run → Ends (λ a t. P a t × Q a t) run
  Ends-both (a, t, e, p) (b, s, f, q) =
      let same : done b s ≡ done a t = sym f ∙ e in (a, t, e, (p, subst (λ r. AtEnd Q r) same q))

module _ {D S : Type 0} (k : Kernel D) (I : ℕ → S → Trace D → Type 0) (body : ℕ → S → M D S)
    (last : ℕ) where
  -- The rule for a counted loop: the body ends and takes the invariant one index further.
  pub Ends-for_range :
      ((i : ℕ) (s : S) (t : Trace D) → i < last → I i s t → Ends (I (i + 1)) (body i s k t))
      → (n first : ℕ) (s : S) (t : Trace D) → first + n ≡ last
      → I first s t
      → Ends (I last) (for_range n first body s k t)
  unfolding for_range
  Ends-for_range keep zero first s t e h =
      let same : first ≡ last = omega arith in (s, t, refl, rw (← same) h)
  Ends-for_range keep (suc n) first s t e h =
      let (s', t', run, h') = keep first s t (omega arith) h in
      let (s'', t'', run', h'') = Ends-for_range keep n (first + 1) s' t' (omega arith) h' in
      (s'', t'', rw run run', h'')

-- The sum of a weight over the calls of a trace.
unfoldable pub tally : {D : Type 0} → (Call D → ℕ) → List (Call D) → ℕ
tally w [] = 0
tally w (c ∷ cs) = w c + tally w cs

pub tally-copies :
    {D : Type 0} (w : Call D → ℕ) (n : ℕ) (c : Call D) (cs : List (Call D))
    → tally w (copies n c cs) ≡ n * w c + tally w cs
unfolding tally copies
tally-copies w zero c cs = omega arith
tally-copies w (suc n) c cs = omega (arith, tally-copies w n c cs)
