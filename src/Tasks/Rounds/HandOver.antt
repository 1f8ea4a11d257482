-- ===== src/Tasks/Rounds/HandOver.antt =====
-- In a run that ends, each side wakes the other once in every round.
use cse.Base.{ℕ, suc, ◌+◌, ◌≡◌, refl, ◌⊎◌, Option, none, some, List, [], ◌∷◌, arith}
use cse.Base.Int.{ℤ}
use cse.Tasks.Switch.{
  ParentAt, parent_done, ChildAt, child_init, child_yield, State, Move, parent_runs, child_runs,
  parent_signal, child_signal, step, run, start,
}
use cse.Tasks.Switch.Turns.{Turn, parent_turn, child_turn, finished}
use cse.Tasks.Switch.Alternate.{step-Turn, start-Turn, run-keeps}
use cse.Tasks.Switch.Finish.{at, with_rounds}
use cse.Tasks.Rounds.History.{
  Answer, prepend, ended, parent_answer, child_answer, parent_history, child_history,
}
use cse.Tasks.Rounds.Wakes.{
  wakes, woken, to_wake, to_wake_at, Counted, parent_runs-Counted, child_runs-Counted,
  parent_signal-Counted, child_signal-Counted,
}

module _ (D : Type 0) (futex : ℤ) where
  active-Counted :
      (m : Move) (word left : ℕ) (pa : ParentAt) (ch : ChildAt)
      → Counted {D = D}
          (parent_answer futex m (at word left pa ch))
          (child_answer futex m (at word left pa ch))
          (at word left pa ch)
          (step m (at word left pa ch))
  unfolding parent_answer child_answer step
  active-Counted parent_runs word left pa ch = parent_runs-Counted D futex word left pa ch
  active-Counted child_runs word left pa ch = child_runs-Counted D futex word left pa ch
  active-Counted parent_signal word left pa ch = parent_signal-Counted D futex word left pa ch
  active-Counted child_signal word left pa ch = child_signal-Counted D futex word left pa ch

  move-Counted :
      (m : Move) (s : State)
      → Turn s
      → Counted {D = D} (parent_answer futex m s) (child_answer futex m s) s (step m s)
  unfolding wakes woken
  move-Counted m s (parent_turn left e f _ _) =
      rw (with_rounds s left e f) (active-Counted m s.futex left s.parent s.child)
  move-Counted m s (child_turn left e f _ _) =
      rw (with_rounds s left e f) (active-Counted m s.futex left s.parent s.child)
  move-Counted m s (finished e f p c) =
      let (same, to_parent, to_child) = ended {D = D} futex m s p c in
      rw (same, to_parent, to_child) (omega arith, omega arith, omega arith, omega arith)

wakes-prepend :
    {D : Type 0} (o : Option (Answer D)) (xs : List (Answer D))
    → wakes (prepend o xs) ≡ wakes (prepend o []) + wakes xs
unfolding wakes
wakes-prepend none xs = omega arith
wakes-prepend (some a) xs = omega arith

woken-prepend :
    {D : Type 0} (o : Option (Answer D)) (xs : List (Answer D))
    → woken (prepend o xs) ≡ woken (prepend o []) + woken xs
unfolding woken
woken-prepend none xs = omega arith
woken-prepend (some a) xs = omega arith

module _ (D : Type 0) (futex : ℤ) where
  -- the counts of a schedule, with what is still to come behind it
  run-Counted :
      (schedule : List Move) (s : State)
      → Turn s
      → (wakes {D = D} (parent_history futex schedule s) + to_wake (run schedule s) ≡ to_wake s)
        × (woken {D = D} (child_history futex schedule s) + to_wake (run schedule s) ≡ to_wake s)
        × (wakes {D = D} (child_history futex schedule s) + (run schedule s).parent_rounds
            ≡ s.parent_rounds)
        × (woken {D = D} (parent_history futex schedule s) + (run schedule s).parent_rounds
            ≡ s.parent_rounds)
  unfolding run parent_history child_history wakes woken
  run-Counted [] s t = (omega arith, omega arith, omega arith, omega arith)
  run-Counted (m ∷ schedule) s t =
      let (a, b, c, d) = move-Counted D futex m s t in
      let (a', b', c', d') = run-Counted schedule (step m s) (step-Turn m s t) in
      let parents = parent_history {D = D} futex schedule (step m s) in
      let children = child_history {D = D} futex schedule (step m s) in
      (
        omega (arith, a, a', wakes-prepend (parent_answer futex m s) parents),
        omega (arith, b, b', woken-prepend (child_answer futex m s) children),
        omega (arith, c, c', wakes-prepend (child_answer futex m s) children),
        omega (arith, d, d', woken-prepend (parent_answer futex m s) parents),
      )

  Turn-rounds : (s : State) → Turn s → s.parent ≡ parent_done → s.parent_rounds ≡ 0
  Turn-rounds s (parent_turn n e f h g) p = elim (rw p at h) [ ]
  Turn-rounds s (child_turn n e f h g) p = elim (rw p at h) [ ]
  Turn-rounds s (finished e f h g) p = e

  done-to_wake : (s : State) → s.parent ≡ parent_done → to_wake s ≡ 0
  unfolding to_wake to_wake_at
  done-to_wake s p = rw p refl

  -- In a run of `n` rounds that ends, whatever the schedule and the signals: the parent has woken the child
  -- exactly `n` times and as many of the child's waits have ended by a wake-up, and the child has woken the
  -- parent exactly `n` times and as many of the parent's waits have ended so. No wake-up is lost and none
  -- comes twice.
  pub run-wakes :
      (child : ChildAt) (word left : ℕ) (schedule : List Move)
      → (child ≡ child_yield) ⊎ (child ≡ child_init)
      → (run schedule (start child word (suc left))).parent ≡ parent_done
      → (wakes {D = D} (parent_history futex schedule (start child word (suc left))) ≡ suc left)
        × (woken {D = D} (child_history futex schedule (start child word (suc left))) ≡ suc left)
        × (wakes {D = D} (child_history futex schedule (start child word (suc left))) ≡ suc left)
        × (woken {D = D} (parent_history futex schedule (start child word (suc left))) ≡ suc left)
  unfolding start to_wake to_wake_at
  run-wakes child word left schedule begins ends =
      let s = start child word (suc left) in
      let turn = start-Turn child word left begins in
      let none_left = done-to_wake (run schedule s) ends in
      let no_rounds = Turn-rounds (run schedule s) (run-keeps schedule s turn) ends in
      let (a, b, c, d) = run-Counted schedule s turn in
      (
        omega (arith, a, none_left),
        omega (arith, b, none_left),
        omega (arith, c, no_rounds),
        omega (arith, d, no_rounds),
      )
