-- ===== src/Tasks/Rounds/ParentRun.antt =====
-- A schedule that ends the parent is a run of what the parent's program has still to do.
use cse.Base.{ℕ, zero, suc, ◌≤◌, ◌≡◌, refl, sym, ◌∙◌, List, [], ◌∷◌, length, ap, arith}
use cse.Base.Int.{ℤ}
use cse.Machine.{Kernel, Trace, done}
use cse.Tasks.Switch.{
  ParentAt, parent_done, ChildAt, State, Move, parent_runs, child_runs, parent_signal, child_signal,
  step, run,
}
use cse.Tasks.Switch.Turns.{Turn, parent_turn, child_turn, finished}
use cse.Tasks.Switch.Alternate.{step-Turn}
use cse.Tasks.Switch.Finish.{at, with_rounds}
use cse.Tasks.Rounds.History.{
  prepend, ended, Replays, after, parent_answer, parent_history, Replays-prepend, after-prepend,
}
use cse.Tasks.Rounds.ParentRest.{parent_rest, parent_from, Advances}
use cse.Tasks.Rounds.ParentMoves.{
  parent_runs-Advances, child_runs-Advances, parent_signal-Advances, interrupt_child-parent,
}

module _ {D : Type 0} (k : Kernel D) (futex : ℤ) (full : ℕ) where
  abbrev ParentStep : (n f : ℕ) → Move → State → Type 0
  ParentStep n f m s =
      Advances k futex full n (parent_answer futex m s)
        (parent_rest futex full s.parent (suc f) s.parent_rounds)
        (λ g. parent_rest futex full (step m s).parent g (step m s).parent_rounds)

  parent_active :
      (n f word left : ℕ) (pa : ParentAt) (ch : ChildAt) (m : Move)
      → n ≤ f
      → n ≤ full
      → ParentStep n f m (at word left pa ch)
  unfolding parent_answer step
  parent_active n f word left pa ch parent_runs h g =
      parent_runs-Advances k futex full n f left word h g pa ch
  parent_active n f word left pa ch child_runs h g =
      child_runs-Advances k futex full n f left word h g pa ch
  parent_active n f word left pa ch parent_signal h g =
      parent_signal-Advances k futex full n f left word h g pa ch
  parent_active n f word left pa ch child_signal h g =
      let (e, r) = interrupt_child-parent ch (at word left pa ch) in
      rw (e, r) (λ t _. (suc f, omega arith, refl))

  parent_step : (n f : ℕ) (m : Move) (s : State) → n ≤ f → n ≤ full → Turn s → ParentStep n f m s
  parent_step n f m s h g (parent_turn left e r _ _) =
      rw (with_rounds s left e r) (parent_active n f s.futex left s.parent s.child m h g)
  parent_step n f m s h g (child_turn left e r _ _) =
      rw (with_rounds s left e r) (parent_active n f s.futex left s.parent s.child m h g)
  parent_step n f m s h g (finished e r p c) =
      let (q, a, _) = ended {D = D} futex m s p c in rw (q, a) (λ t _. (suc f, omega arith, refl))

  parent_rest-done :
      (f rounds : ℕ) (t : Trace D) → parent_rest futex full parent_done f rounds k t ≡ done tt t
  unfolding parent_rest parent_from
  parent_rest-done f zero t = refl
  parent_rest-done f (suc left) t = refl

  -- what a schedule leaves to the parent's program, if it ends the parent
  pub parent_run :
      (schedule : List Move) (s : State) (f : ℕ) (t : Trace D)
      → length schedule ≤ f
      → length schedule ≤ full
      → Turn s
      → (run schedule s).parent ≡ parent_done
      → Replays k (parent_history futex schedule s) t
      → parent_rest futex full s.parent f s.parent_rounds k t
        ≡ done tt (after k (parent_history futex schedule s) t)
  unfolding run parent_history
  parent_run [] s f t h g turn e r = rw e (parent_rest-done f s.parent_rounds t)
  parent_run (m ∷ schedule) s zero t h g turn e r = absurd (omega arith)
  parent_run (m ∷ schedule) s (suc f) t h g turn e r =
      let o = parent_answer futex m s in
      let rest = parent_history futex schedule (step m s) in
      let (now, later) = Replays-prepend k o rest t r in
      let (f', le, q) =
        parent_step (length schedule) f m s (omega arith) (omega arith) turn t now in
      q
      ∙ parent_run schedule (step m s) f' (after k (prepend o []) t) le (omega arith)
          (step-Turn m s turn) e later
      ∙ sym (ap (done tt) (after-prepend k o rest t))
