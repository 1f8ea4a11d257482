-- ===== src/Tasks/Switch/Rank/ParentTurn.antt =====
-- The measure of `Rank` while the parent has the turn.
use cse.Base.{ℕ, ◌≡◌, refl, inl, inr, arith}
use cse.Tasks.Switch.{
  ParentAt, parent_init, parent_store, parent_wake, parent_wake_yield, parent_yield, parent_wait,
  parent_wait_yield, parent_asleep, parent_done, ChildAt, child_init, child_yield, child_wait,
  child_wait_yield, child_asleep, child_store, child_wake, child_wake_yield, child_done, parent_to,
  child_to, store, parent_wakes, step_parent, step_child, parent_runs, child_runs,
}
use cse.Tasks.Switch.Turns.{ParentTurns, ChildWaits}
use cse.Tasks.Switch.Finish.{at}
use cse.Tasks.Switch.Rank.{
  rank, rank_at, round_rank, waking, waiting, helpful, helpful_at, helpful_waking, helpful_waiting,
  Progress,
}

module _ (w left : ℕ) where
  parent_wakes-Progress :
      (ch : ChildAt)
      → ChildWaits w ch
      → Progress parent_runs (at w left parent_wake ch) (parent_wakes ch (at w left parent_wake ch))
  unfolding rank rank_at round_rank waking waiting helpful helpful_at helpful_waking helpful_waiting
      parent_wakes parent_to child_to
  parent_wakes-Progress child_init h = inr (refl, refl, λ x. cc)
  parent_wakes-Progress child_yield h = inr (refl, refl, λ x. cc)
  parent_wakes-Progress child_wait h = inr (refl, refl, λ x. cc)
  parent_wakes-Progress child_wait_yield h = inr (refl, refl, λ x. cc)
  parent_wakes-Progress child_asleep h = inl (omega arith)
  parent_wakes-Progress child_store h = elim h [ ]
  parent_wakes-Progress child_wake h = elim h [ ]
  parent_wakes-Progress child_wake_yield h = elim h [ ]
  parent_wakes-Progress child_done h = elim h [ ]

  parent_stores-Progress :
      (ch : ChildAt)
      → ChildWaits w ch
      → Progress parent_runs
          (at w left parent_store ch)
          (step_parent parent_store (at w left parent_store ch))
  unfolding rank rank_at round_rank waking helpful helpful_at helpful_waking step_parent parent_to
      store
  parent_stores-Progress child_init h = inl (omega arith)
  parent_stores-Progress child_yield h = inl (omega arith)
  parent_stores-Progress child_wait h = inl (omega arith)
  parent_stores-Progress child_wait_yield h = inl (omega arith)
  parent_stores-Progress child_asleep h = inl (omega arith)
  parent_stores-Progress child_store h = elim h [ ]
  parent_stores-Progress child_wake h = elim h [ ]
  parent_stores-Progress child_wake_yield h = elim h [ ]
  parent_stores-Progress child_done h = elim h [ ]

  parent_yields-Progress :
      (ch : ChildAt)
      → ChildWaits w ch
      → Progress parent_runs
          (at w left parent_wake_yield ch)
          (step_parent parent_wake_yield (at w left parent_wake_yield ch))
  unfolding rank rank_at round_rank waking helpful helpful_at helpful_waking step_parent parent_to
  parent_yields-Progress child_init h = inr (refl, refl, λ x. cc)
  parent_yields-Progress child_yield h = inr (refl, refl, λ x. cc)
  parent_yields-Progress child_wait h = inr (refl, refl, λ x. cc)
  parent_yields-Progress child_wait_yield h = inr (refl, refl, λ x. cc)
  parent_yields-Progress child_asleep h = inl (omega arith)
  parent_yields-Progress child_store h = elim h [ ]
  parent_yields-Progress child_wake h = elim h [ ]
  parent_yields-Progress child_wake_yield h = elim h [ ]
  parent_yields-Progress child_done h = elim h [ ]

  -- the parent's moves while it has the turn
  pub step_parent-Progress :
      (pa : ParentAt) (ch : ChildAt)
      → ParentTurns w pa
      → ChildWaits w ch
      → Progress parent_runs (at w left pa ch) (step_parent pa (at w left pa ch))
  unfolding rank rank_at round_rank step_parent parent_to store
  step_parent-Progress parent_init ch g h = inl (omega arith)
  step_parent-Progress parent_store ch g h = parent_stores-Progress ch h
  step_parent-Progress parent_wake ch g h = parent_wakes-Progress ch h
  step_parent-Progress parent_wake_yield ch g h = parent_yields-Progress ch h
  step_parent-Progress parent_yield ch g h = elim g [ ]
  step_parent-Progress parent_wait ch g h = elim g [ ]
  step_parent-Progress parent_wait_yield ch g h = elim g [ ]
  step_parent-Progress parent_asleep ch g h = elim g [ ]
  step_parent-Progress parent_done ch g h = elim g [ ]

  child_to_wake-Progress :
      (ch : ChildAt)
      → w ≡ 10
      → ChildWaits w ch
      → Progress child_runs (at w left parent_wake ch) (step_child ch (at w left parent_wake ch))
  unfolding rank rank_at round_rank waking helpful helpful_at helpful_waking step_child child_to
      store
  child_to_wake-Progress child_init e h = inl (omega arith)
  child_to_wake-Progress child_yield e h = inl (omega arith)
  child_to_wake-Progress child_wait e h = rw e (inl (omega arith))
  child_to_wake-Progress child_wait_yield e h = inl (omega arith)
  child_to_wake-Progress child_asleep e h = inr (refl, refl, λ x. cc)
  child_to_wake-Progress child_store e h = elim h [ ]
  child_to_wake-Progress child_wake e h = elim h [ ]
  child_to_wake-Progress child_wake_yield e h = elim h [ ]
  child_to_wake-Progress child_done e h = elim h [ ]

  child_to_wake_yield-Progress :
      (ch : ChildAt)
      → w ≡ 10
      → ChildWaits w ch
      → Progress child_runs
          (at w left parent_wake_yield ch)
          (step_child ch (at w left parent_wake_yield ch))
  unfolding rank rank_at round_rank waking helpful helpful_at helpful_waking step_child child_to
      store
  child_to_wake_yield-Progress child_init e h = inl (omega arith)
  child_to_wake_yield-Progress child_yield e h = inl (omega arith)
  child_to_wake_yield-Progress child_wait e h = rw e (inl (omega arith))
  child_to_wake_yield-Progress child_wait_yield e h = inl (omega arith)
  child_to_wake_yield-Progress child_asleep e h = inr (refl, refl, λ x. cc)
  child_to_wake_yield-Progress child_store e h = elim h [ ]
  child_to_wake_yield-Progress child_wake e h = elim h [ ]
  child_to_wake_yield-Progress child_wake_yield e h = elim h [ ]
  child_to_wake_yield-Progress child_done e h = elim h [ ]

  child_at_init-Progress :
      (ch : ChildAt)
      → ChildWaits w ch
      → Progress child_runs (at w left parent_init ch) (step_child ch (at w left parent_init ch))
  unfolding rank rank_at round_rank helpful helpful_at step_child child_to store
  child_at_init-Progress child_init h = inr (refl, refl, λ x. cc)
  child_at_init-Progress child_yield h = inr (refl, refl, λ x. cc)
  child_at_init-Progress child_wait h = inr (refl, refl, λ x. cc)
  child_at_init-Progress child_wait_yield h = inr (refl, refl, λ x. cc)
  child_at_init-Progress child_asleep h = inr (refl, refl, λ x. cc)
  child_at_init-Progress child_store h = elim h [ ]
  child_at_init-Progress child_wake h = elim h [ ]
  child_at_init-Progress child_wake_yield h = elim h [ ]
  child_at_init-Progress child_done h = elim h [ ]

  child_at_store-Progress :
      (ch : ChildAt)
      → ChildWaits w ch
      → Progress child_runs (at w left parent_store ch) (step_child ch (at w left parent_store ch))
  unfolding rank rank_at round_rank helpful helpful_at step_child child_to store
  child_at_store-Progress child_init h = inr (refl, refl, λ x. cc)
  child_at_store-Progress child_yield h = inr (refl, refl, λ x. cc)
  child_at_store-Progress child_wait h = inr (refl, refl, λ x. cc)
  child_at_store-Progress child_wait_yield h = inr (refl, refl, λ x. cc)
  child_at_store-Progress child_asleep h = inr (refl, refl, λ x. cc)
  child_at_store-Progress child_store h = elim h [ ]
  child_at_store-Progress child_wake h = elim h [ ]
  child_at_store-Progress child_wake_yield h = elim h [ ]
  child_at_store-Progress child_done h = elim h [ ]

  -- the child's moves while the parent has the turn
  pub wait_child-Progress :
      (pa : ParentAt) (ch : ChildAt)
      → ParentTurns w pa
      → ChildWaits w ch
      → Progress child_runs (at w left pa ch) (step_child ch (at w left pa ch))
  wait_child-Progress parent_init ch g h = child_at_init-Progress ch h
  wait_child-Progress parent_store ch g h = child_at_store-Progress ch h
  wait_child-Progress parent_wake ch g h = child_to_wake-Progress ch g h
  wait_child-Progress parent_wake_yield ch g h = child_to_wake_yield-Progress ch g h
  wait_child-Progress parent_yield ch g h = elim g [ ]
  wait_child-Progress parent_wait ch g h = elim g [ ]
  wait_child-Progress parent_wait_yield ch g h = elim g [ ]
  wait_child-Progress parent_asleep ch g h = elim g [ ]
  wait_child-Progress parent_done ch g h = elim g [ ]
