-- ===== src/Tasks/Rounds/ParentRest.antt =====
-- What the parent's program has still to do where the machine of `Tasks.Switch` stands, and that a
-- move of the machine takes the program as far.
use cse.Base.{ℕ, zero, suc, ◌≤◌, ◌≡◌, refl, not, Option, []}
use cse.Base.Int.{ℤ, is_zero}
use cse.Machine.{
  sched_yield, store as store_call, futex_wait, futex_wake, Kernel, Trace, M, log, pure, ◌>>◌, call,
  repeat, and_then_assoc,
}
use cse.Tasks.Switch.{
  ParentAt, parent_init, parent_store, parent_wake, parent_wake_yield, parent_yield, parent_wait,
  parent_wait_yield, parent_asleep, parent_done, parent_loop,
}
use cse.Tasks.Rounds.{retry, wait_loop, wake_loop, parent_round}
use cse.Tasks.Rounds.History.{Answer, prepend, Replays, after}

module _ {D : Type 0} (futex : ℤ) (full : ℕ) where
  -- the rest of the program from a FUTEX_WAIT, `f` the fuel of its loop, with `left` rounds to come
  abbrev pub wait_from : (f left : ℕ) → M D (Unit {0})
  wait_from f left = do retry f is_zero (futex_wait futex 11); repeat left (parent_round full futex)

  abbrev pub wake_from : (f left : ℕ) → M D (Unit {0})
  wake_from f left = do
    retry f (λ woken. not (is_zero woken)) (futex_wake futex 1)
    call sched_yield
    wait_from full left

  -- the rest of the program, `left` rounds to come after the current one
  unfoldable pub parent_from : ParentAt → (f left : ℕ) → M D (Unit {0})
  parent_from parent_init f left = do
    call (store_call futex 10)
    call (store_call futex 10)
    wake_from full left
  parent_from parent_store f left = do call (store_call futex 10); wake_from full left
  parent_from parent_wake f left = wake_from f left
  parent_from parent_wake_yield f left = do call sched_yield; wake_from f left
  parent_from parent_yield f left = do call sched_yield; wait_from full left
  parent_from parent_wait f left = wait_from f left
  parent_from parent_wait_yield f left = do call sched_yield; wait_from f left
  parent_from parent_asleep f left = wait_from f left
  parent_from parent_done f left = pure tt

  unfoldable pub parent_rest : ParentAt → (f rounds : ℕ) → M D (Unit {0})
  parent_rest at f zero = pure tt
  parent_rest at f (suc left) = parent_from at f left

module _ {D : Type 0} (k : Kernel D) (futex : ℤ) (full : ℕ) where
  -- From `old` the calls of an answer, if there is one, lead to `new` with fuel for `n` more.
  abbrev pub Advances : ℕ → Option (Answer D) → M D (Unit {0}) → (ℕ → M D (Unit {0})) → Type 0
  Advances n o old new =
      (t : Trace D)
      → Replays k (prepend o []) t
      → (f : ℕ) × (n ≤ f) × (old k t ≡ new f k (after k (prepend o []) t))

  -- the loop's head
  pub repeat-parent_rest :
      (rounds f : ℕ) (t : Trace D)
      → repeat rounds (parent_round full futex) k t
        ≡ parent_rest futex full (parent_loop rounds) f rounds k t
  unfolding repeat parent_round parent_rest parent_from parent_loop wait_loop wake_loop
  repeat-parent_rest zero f t = refl
  repeat-parent_rest (suc left) f t =
      rw
        (and_then_assoc (
          retry full (λ woken. not (is_zero woken)) (futex_wake futex 1) k
            (log k t (store_call futex 10))))
        refl
