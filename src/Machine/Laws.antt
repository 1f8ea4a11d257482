-- ===== src/Machine/Laws.antt =====
-- What the trace of a run says: the calls made, without their answers.
use cse.Base.{ℕ, zero, suc, ◌≡◌, refl, ap, Option, none, some, List, [], ◌∷◌}
use cse.Machine.Calls.{Call, Trace}
use cse.Machine.Monad.{Run, done, exited, aborted, fault, looping, and_then}

module _ {D : Type 0} where
  -- The calls of a trace, newest first.
  unfoldable pub calls : Trace D → List (Call D)
  calls [] = []
  calls (e ∷ t) = e.call ∷ calls t

  -- what a run returns, if it ends without an exit, an abort or a fault
  unfoldable pub value? : {A : Type 0} → Run D A → Option A
  value? (done a t) = some a
  value? _ = none

-- `n` copies of a call, in front of a list
unfoldable pub copies {ℓ} : {A : Type ℓ} → ℕ → A → List A → List A
copies zero a xs = xs
copies (suc n) a xs = a ∷ copies n a xs

pub copies-cons {ℓ} :
    {A : Type ℓ} (n : ℕ) (a : A) (xs : List A) → copies n a (a ∷ xs) ≡ a ∷ copies n a xs
unfolding copies
copies-cons zero a xs = refl
copies-cons (suc n) a xs = ap (λ l. a ∷ l) (copies-cons n a xs)

pub and_then_assoc :
    {D A B C : Type 0} (r : Run D A) (f : A → Trace D → Run D B) (g : B → Trace D → Run D C)
    → and_then (and_then r f) g ≡ and_then r (λ a t. and_then (f a t) g)
and_then_assoc (done a t) f g = refl
and_then_assoc (exited c t) f g = refl
and_then_assoc (aborted t) f g = refl
and_then_assoc (fault t) f g = refl
and_then_assoc (looping t) f g = refl
