-- ===== src/Machine/Filled.antt =====
-- A loop that fills an array writes inside it.
use cse.Base.{
  ℕ, zero, suc, ◌+◌, ◌-◌, ◌≡◌, refl, ap, ◌∙◌, List, [], ◌∷◌, ◌++◌, map, length, length-append,
  arith,
}
use mathlib.Core.List.{append_assoc}
use cse.Base.Arrays.{set?-append}
use cse.Base.Counting.{upto}
use cse.Machine.Calls.{Trace, Kernel}
use cse.Machine.Monad.{done}
use cse.Machine.Loops.{fill}

module _ {D A : Type 0} (k : Kernel D) (t : Trace D) (offset : ℕ) (f : ℕ → A) where
  fill-from :
      (n first : ℕ) (pre rest : List A)
      → first ≡ offset + length pre
      → length rest ≡ n
      → fill offset f n first (pre ++ rest) k t ≡ done (pre ++ map f (upto n first)) t
  unfolding fill upto
  fill-from zero first pre [] e h = refl
  fill-from zero first pre (x ∷ rest) e h = absurd (omega arith)
  fill-from (suc n) first pre [] e h = absurd (omega arith)
  fill-from (suc n) first pre (x ∷ rest) e h =
      let place : first - offset ≡ length pre = omega arith in
      rw (place, set?-append pre x (f first) rest)
        (fill-from n (suc first) (pre ++ f first ∷ []) rest
            (omega (arith, length-append pre (f first ∷ []))) (omega arith)
          ∙ ap (λ l. done l t) (append_assoc pre (f first ∷ []) (map f (upto n (suc first)))))

  -- On an array with as many elements as the loop has rounds, `fill` ends, and every element is new.
  pub fill-map :
      (n : ℕ) (xs : List A)
      → length xs ≡ n
      → fill offset f n offset xs k t ≡ done (map f (upto n offset)) t
  fill-map n xs h = fill-from n offset [] xs (omega arith) h

pub map-id : (xs : List ℕ) → map (λ x. x) xs ≡ xs
map-id [] = refl
map-id (x ∷ xs) = ap (λ l. x ∷ l) (map-id xs)
