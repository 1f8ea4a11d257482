-- ===== src/Tasks/Rounds/ChildRun.antt =====
-- A schedule that ends the child is a run of what the child's program has still to do.
use cse.Base.{ℕ, zero, suc, ◌≤◌, ◌≡◌, refl, sym, ◌∙◌, List, [], ◌∷◌, length, ap, arith}
use cse.Base.Int.{ℤ}
use cse.Machine.{Kernel, Trace, done}
use cse.Tasks.Switch.{
  ParentAt, ChildAt, child_done, State, Move, parent_runs, child_runs, parent_signal, child_signal,
  step, run,
}
use cse.Tasks.Switch.Turns.{Turn, parent_turn, child_turn, finished}
use cse.Tasks.Switch.Alternate.{step-Turn}
use cse.Tasks.Switch.Finish.{at, with_rounds}
use cse.Tasks.Rounds.History.{
  prepend, ended, Replays, after, child_answer, child_history, Replays-prepend, after-prepend,
}
use cse.Tasks.Rounds.ParentRest.{Advances}
use cse.Tasks.Rounds.ChildRest.{child_rest, child_from}
use cse.Tasks.Rounds.ChildMoves.{
  child_steps-Advances, parent_steps-Advances, child_signal-Advances, interrupt_parent-child,
}

module _ {D : Type 0} (k : Kernel D) (futex : ℤ) (full : ℕ) where
  abbrev ChildStep : (n f : ℕ) → Move → State → Type 0
  ChildStep n f m s =
      Advances k futex full n (child_answer futex m s)
        (child_rest futex full s.child (suc f) s.child_rounds)
        (λ g. child_rest futex full (step m s).child g (step m s).child_rounds)

  child_active :
      (n f word left : ℕ) (pa : ParentAt) (ch : ChildAt) (m : Move)
      → n ≤ f
      → n ≤ full
      → ChildStep n f m (at word left pa ch)
  unfolding child_answer step
  child_active n f word left pa ch parent_runs h g =
      parent_steps-Advances k futex full n f left word h g pa ch
  child_active n f word left pa ch child_runs h g =
      child_steps-Advances k futex full n f left word h g pa ch
  child_active n f word left pa ch child_signal h g =
      child_signal-Advances k futex full n f left word h g pa ch
  child_active n f word left pa ch parent_signal h g =
      let (e, r) = interrupt_parent-child pa (at word left pa ch) in
      rw (e, r) (λ t _. (suc f, omega arith, refl))

  child_step : (n f : ℕ) (m : Move) (s : State) → n ≤ f → n ≤ full → Turn s → ChildStep n f m s
  child_step n f m s h g (parent_turn left e r _ _) =
      rw (with_rounds s left e r) (child_active n f s.futex left s.parent s.child m h g)
  child_step n f m s h g (child_turn left e r _ _) =
      rw (with_rounds s left e r) (child_active n f s.futex left s.parent s.child m h g)
  child_step n f m s h g (finished e r p c) =
      let (q, _, a) = ended {D = D} futex m s p c in rw (q, a) (λ t _. (suc f, omega arith, refl))

  child_rest-done :
      (f rounds : ℕ) (t : Trace D) → child_rest futex full child_done f rounds k t ≡ done tt t
  unfolding child_rest child_from
  child_rest-done f zero t = refl
  child_rest-done f (suc left) t = refl

  -- what a schedule leaves to the child's program, if it ends the child
  pub child_run :
      (schedule : List Move) (s : State) (f : ℕ) (t : Trace D)
      → length schedule ≤ f
      → length schedule ≤ full
      → Turn s
      → (run schedule s).child ≡ child_done
      → Replays k (child_history futex schedule s) t
      → child_rest futex full s.child f s.child_rounds k t
        ≡ done tt (after k (child_history futex schedule s) t)
  unfolding run child_history
  child_run [] s f t h g turn e r = rw e (child_rest-done f s.child_rounds t)
  child_run (m ∷ schedule) s zero t h g turn e r = absurd (omega arith)
  child_run (m ∷ schedule) s (suc f) t h g turn e r =
      let o = child_answer futex m s in
      let rest = child_history futex schedule (step m s) in
      let (now, later) = Replays-prepend k o rest t r in
      let (f', le, q) = child_step (length schedule) f m s (omega arith) (omega arith) turn t now in
      q
      ∙ child_run schedule (step m s) f' (after k (prepend o []) t) le (omega arith)
          (step-Turn m s turn) e later
      ∙ sym (ap (done tt) (after-prepend k o rest t))
