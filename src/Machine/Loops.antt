-- ===== src/Machine/Loops.antt =====
-- The `for` loops of the source.
use cse.Base.{ℕ, zero, suc, ◌+◌, ◌-◌, List}
use cse.Machine.Monad.{M, pure, ◌>>=◌, write}

module _ {D : Type 0} where
  -- for (i = first; i < first + n; ++i) s = body(i, s);
  unfoldable pub for_range : {S : Type 0} → (n first : ℕ) → (ℕ → S → M D S) → S → M D S
  for_range zero first body s = pure s
  for_range (suc n) first body s = do s' ← body first s; for_range n (first + 1) body s'

  -- a loop whose body does not read its index
  unfoldable pub repeat : ℕ → M D (Unit {0}) → M D (Unit {0})
  repeat zero body = pure tt
  repeat (suc n) body = do _ ← body; repeat n body

  -- for (i = first; i < first + n; ++i) xs[i - offset] = f(i);
  unfoldable pub fill :
      {A : Type 0} → (offset : ℕ) → (ℕ → A) → (n first : ℕ) → List A → M D (List A)
  fill offset f zero first xs = pure xs
  fill offset f (suc n) first xs = do
    xs' ← write xs (first - offset) (f first)
    fill offset f n (suc first) xs'
