-- ===== src/Machine/Silent.antt =====
-- Loops of calls whose answers nobody reads.
use cse.Base.{ℕ, zero, suc, ◌≡◌, refl, ◌∙◌, ◌∷◌}
use cse.Machine.Calls.{Call, Trace, Kernel}
use cse.Machine.Monad.{done, call, pure}
use cse.Machine.Loops.{repeat}
use cse.Machine.Laws.{calls, copies, copies-cons}

-- `repeat n (call c)` comes to its end, with `n` more calls of `c` in the trace.
pub repeat-call :
    {D : Type 0} (k : Kernel D) (c : Call D) (n : ℕ) (t : Trace D)
    → (t' : Trace D) × (repeat n (call c) k t ≡ done tt t') × (calls t' ≡ copies n c (calls t))
unfolding repeat calls copies
repeat-call k c zero t = (t, refl, refl)
repeat-call k c (suc n) t =
    let (t', e, f) = repeat-call k c n (record { call = c; reply = k t c } ∷ t) in
    (t', e, f ∙ copies-cons n c (calls t))

-- An empty loop makes no calls.
pub repeat-pure :
    {D : Type 0} (k : Kernel D) (n : ℕ) (t : Trace D) → repeat n (pure tt) k t ≡ done tt t
unfolding repeat
repeat-pure k zero t = refl
repeat-pure k (suc n) t = repeat-pure k n t
