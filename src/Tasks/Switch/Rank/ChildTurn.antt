-- ===== src/Tasks/Switch/Rank/ChildTurn.antt =====
-- The measure of `Rank` while the child has the turn.
use cse.Base.{ℕ, zero, suc, ◌≡◌, refl, inl, inr, arith}
use cse.Tasks.Switch.{
  ParentAt, parent_init, parent_store, parent_wake, parent_wake_yield, parent_yield, parent_wait,
  parent_wait_yield, parent_asleep, parent_done, ChildAt, child_init, child_yield, child_wait,
  child_wait_yield, child_asleep, child_store, child_wake, child_wake_yield, child_done,
  parent_loop, child_loop, next_rounds, parent_to, child_to, store, child_wakes, step_parent,
  step_child, parent_runs, child_runs,
}
use cse.Tasks.Switch.Turns.{ParentWaits, ChildTurns}
use cse.Tasks.Switch.Finish.{at}
use cse.Tasks.Switch.Rank.{
  rank, rank_at, round_rank, waiting, sleeping, helpful, helpful_at, helpful_waiting, Progress,
}

module _ (w left : ℕ) where
  child_stores-Progress :
      (pa : ParentAt)
      → w ≡ 10
      → ParentWaits w pa
      → Progress child_runs
          (at w left pa child_store)
          (step_child child_store (at w left pa child_store))
  unfolding rank rank_at round_rank waiting sleeping helpful helpful_at helpful_waiting step_child
      child_to store
  child_stores-Progress parent_init e g = elim g [ ]
  child_stores-Progress parent_store e g = elim g [ ]
  child_stores-Progress parent_wake e g = elim g [ ]
  child_stores-Progress parent_wake_yield e g = elim g [ ]
  child_stores-Progress parent_yield e g = inl (omega arith)
  child_stores-Progress parent_wait e g = inl (omega arith)
  child_stores-Progress parent_wait_yield e g = inl (omega arith)
  child_stores-Progress parent_asleep e g = absurd (omega (arith, e, g))
  child_stores-Progress parent_done e g = elim g [ ]

  next_rounds-Progress :
      (left : ℕ)
      → Progress child_runs
          (at w left parent_asleep child_wake)
          (next_rounds w (suc left) (suc left))
  unfolding rank rank_at round_rank sleeping helpful helpful_at next_rounds parent_loop child_loop
  next_rounds-Progress zero = inl (omega arith)
  next_rounds-Progress (suc left) = inl (omega arith)

  child_wakes-Progress :
      (pa : ParentAt)
      → ParentWaits w pa
      → Progress child_runs (at w left pa child_wake) (child_wakes pa (at w left pa child_wake))
  unfolding rank rank_at round_rank waiting helpful helpful_at helpful_waiting child_wakes child_to
  child_wakes-Progress parent_init g = elim g [ ]
  child_wakes-Progress parent_store g = elim g [ ]
  child_wakes-Progress parent_wake g = elim g [ ]
  child_wakes-Progress parent_wake_yield g = elim g [ ]
  child_wakes-Progress parent_yield g = inr (refl, refl, λ x. cc)
  child_wakes-Progress parent_wait g = inr (refl, refl, λ x. cc)
  child_wakes-Progress parent_wait_yield g = inr (refl, refl, λ x. cc)
  child_wakes-Progress parent_asleep g = next_rounds-Progress left
  child_wakes-Progress parent_done g = elim g [ ]

  child_yields-Progress :
      (pa : ParentAt)
      → ParentWaits w pa
      → Progress child_runs
          (at w left pa child_wake_yield)
          (step_child child_wake_yield (at w left pa child_wake_yield))
  unfolding rank rank_at round_rank waiting sleeping helpful helpful_at helpful_waiting step_child
      child_to
  child_yields-Progress parent_init g = elim g [ ]
  child_yields-Progress parent_store g = elim g [ ]
  child_yields-Progress parent_wake g = elim g [ ]
  child_yields-Progress parent_wake_yield g = elim g [ ]
  child_yields-Progress parent_yield g = inr (refl, refl, λ x. cc)
  child_yields-Progress parent_wait g = inr (refl, refl, λ x. cc)
  child_yields-Progress parent_wait_yield g = inr (refl, refl, λ x. cc)
  child_yields-Progress parent_asleep g = inl (omega arith)
  child_yields-Progress parent_done g = elim g [ ]

  -- the child's moves while it has the turn
  pub step_child-Progress :
      (pa : ParentAt) (ch : ChildAt)
      → ParentWaits w pa
      → ChildTurns w ch
      → Progress child_runs (at w left pa ch) (step_child ch (at w left pa ch))
  unfolding step_child
  step_child-Progress pa child_store g h = child_stores-Progress pa h g
  step_child-Progress pa child_wake g h = child_wakes-Progress pa g
  step_child-Progress pa child_wake_yield g h = child_yields-Progress pa g
  step_child-Progress pa child_init g h = elim h [ ]
  step_child-Progress pa child_yield g h = elim h [ ]
  step_child-Progress pa child_wait g h = elim h [ ]
  step_child-Progress pa child_wait_yield g h = elim h [ ]
  step_child-Progress pa child_asleep g h = elim h [ ]
  step_child-Progress pa child_done g h = elim h [ ]

  parent_at_store-Progress :
      (pa : ParentAt)
      → w ≡ 10
      → ParentWaits w pa
      → Progress parent_runs (at w left pa child_store) (step_parent pa (at w left pa child_store))
  unfolding rank rank_at round_rank waiting sleeping helpful helpful_at helpful_waiting step_parent
      parent_to
  parent_at_store-Progress parent_init e g = elim g [ ]
  parent_at_store-Progress parent_store e g = elim g [ ]
  parent_at_store-Progress parent_wake e g = elim g [ ]
  parent_at_store-Progress parent_wake_yield e g = elim g [ ]
  parent_at_store-Progress parent_yield e g = inr (refl, refl, λ x. cc)
  parent_at_store-Progress parent_wait e g = rw e (inr (refl, refl, λ x. cc))
  parent_at_store-Progress parent_wait_yield e g = inr (refl, refl, λ x. cc)
  parent_at_store-Progress parent_asleep e g = inr (refl, refl, λ x. cc)
  parent_at_store-Progress parent_done e g = elim g [ ]

  parent_at_wake-Progress :
      (pa : ParentAt)
      → w ≡ 11
      → ParentWaits w pa
      → Progress parent_runs (at w left pa child_wake) (step_parent pa (at w left pa child_wake))
  unfolding rank rank_at round_rank waiting sleeping helpful helpful_at helpful_waiting step_parent
      parent_to
  parent_at_wake-Progress parent_init e g = elim g [ ]
  parent_at_wake-Progress parent_store e g = elim g [ ]
  parent_at_wake-Progress parent_wake e g = elim g [ ]
  parent_at_wake-Progress parent_wake_yield e g = elim g [ ]
  parent_at_wake-Progress parent_yield e g = inl (omega arith)
  parent_at_wake-Progress parent_wait e g = rw e (inl (omega arith))
  parent_at_wake-Progress parent_wait_yield e g = inl (omega arith)
  parent_at_wake-Progress parent_asleep e g = inr (refl, refl, λ x. cc)
  parent_at_wake-Progress parent_done e g = elim g [ ]

  parent_at_wake_yield-Progress :
      (pa : ParentAt)
      → w ≡ 11
      → ParentWaits w pa
      → Progress parent_runs
          (at w left pa child_wake_yield)
          (step_parent pa (at w left pa child_wake_yield))
  unfolding rank rank_at round_rank waiting sleeping helpful helpful_at helpful_waiting step_parent
      parent_to
  parent_at_wake_yield-Progress parent_init e g = elim g [ ]
  parent_at_wake_yield-Progress parent_store e g = elim g [ ]
  parent_at_wake_yield-Progress parent_wake e g = elim g [ ]
  parent_at_wake_yield-Progress parent_wake_yield e g = elim g [ ]
  parent_at_wake_yield-Progress parent_yield e g = inl (omega arith)
  parent_at_wake_yield-Progress parent_wait e g = rw e (inl (omega arith))
  parent_at_wake_yield-Progress parent_wait_yield e g = inl (omega arith)
  parent_at_wake_yield-Progress parent_asleep e g = inr (refl, refl, λ x. cc)
  parent_at_wake_yield-Progress parent_done e g = elim g [ ]

  -- the parent's moves while the child has the turn
  pub wait_parent-Progress :
      (pa : ParentAt) (ch : ChildAt)
      → ParentWaits w pa
      → ChildTurns w ch
      → Progress parent_runs (at w left pa ch) (step_parent pa (at w left pa ch))
  wait_parent-Progress pa child_store g h = parent_at_store-Progress pa h g
  wait_parent-Progress pa child_wake g h = parent_at_wake-Progress pa h g
  wait_parent-Progress pa child_wake_yield g h = parent_at_wake_yield-Progress pa h g
  wait_parent-Progress pa child_init g h = elim h [ ]
  wait_parent-Progress pa child_yield g h = elim h [ ]
  wait_parent-Progress pa child_wait g h = elim h [ ]
  wait_parent-Progress pa child_wait_yield g h = elim h [ ]
  wait_parent-Progress pa child_asleep g h = elim h [ ]
  wait_parent-Progress pa child_done g h = elim h [ ]
