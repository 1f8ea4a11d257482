-- ===== src/Tasks/Rounds/ChildRest.antt =====
-- What the child's program has still to do where the machine of `Tasks.Switch` stands.
use cse.Base.{ℕ, zero, suc, ◌≡◌, refl, not}
use cse.Base.Int.{ℤ, is_zero}
use cse.Machine.{
  sched_yield, store as store_call, futex_wait, futex_wake, Kernel, Trace, M, log, pure, ◌>>◌, call,
  repeat, and_then_assoc,
}
use cse.Tasks.Switch.{
  ChildAt, child_init, child_yield, child_wait, child_wait_yield, child_asleep, child_store,
  child_wake, child_wake_yield, child_done, child_loop,
}
use cse.Tasks.Rounds.{retry, wait_loop, wake_loop, child_round}

module _ {D : Type 0} (futex : ℤ) (full : ℕ) where
  -- the rest of the program from a FUTEX_WAKE, `f` the fuel of its loop, with `left` rounds to come
  abbrev pub wake_from : (f left : ℕ) → M D (Unit {0})
  wake_from f left = do
    retry f (λ woken. not (is_zero woken)) (futex_wake futex 1)
    repeat left (child_round full futex)

  abbrev pub wait_from : (f left : ℕ) → M D (Unit {0})
  wait_from f left = do
    retry f is_zero (futex_wait futex 10)
    call (store_call futex 11)
    wake_from full left

  -- the rest of the program, `left` rounds to come after the current one
  unfoldable pub child_from : ChildAt → (f left : ℕ) → M D (Unit {0})
  child_from child_init f left = do
    call (store_call futex 10)
    call sched_yield
    wait_from full left
  child_from child_yield f left = do call sched_yield; wait_from full left
  child_from child_wait f left = wait_from f left
  child_from child_wait_yield f left = do call sched_yield; wait_from f left
  child_from child_asleep f left = wait_from f left
  child_from child_store f left = do call (store_call futex 11); wake_from full left
  child_from child_wake f left = wake_from f left
  child_from child_wake_yield f left = do call sched_yield; wake_from f left
  child_from child_done f left = pure tt

  unfoldable pub child_rest : ChildAt → (f rounds : ℕ) → M D (Unit {0})
  child_rest at f zero = pure tt
  child_rest at f (suc left) = child_from at f left

-- the loop's head
pub repeat-child_rest :
    {D : Type 0} (k : Kernel D) (futex : ℤ) (full rounds f : ℕ) (t : Trace D)
    → repeat rounds (child_round full futex) k t
      ≡ child_rest futex full (child_loop rounds) f rounds k t
unfolding repeat child_round child_rest child_from child_loop wait_loop wake_loop
repeat-child_rest k futex full zero f t = refl
repeat-child_rest k futex full (suc left) f t =
    rw (and_then_assoc (retry full is_zero (futex_wait futex 10) k (log k t sched_yield))) refl
