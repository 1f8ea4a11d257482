-- ===== src/Tasks/Switch/Rank/Signals.antt =====
-- A signal adds at most 3 to the measure of `Rank`.
use cse.Base.{ℕ, ◌+◌, ◌*◌, ◌≤◌, arith}
use cse.Tasks.Switch.{
  ParentAt, parent_init, parent_store, parent_wake, parent_wake_yield, parent_yield, parent_wait,
  parent_wait_yield, parent_asleep, parent_done, ChildAt, child_init, child_yield, child_wait,
  child_wait_yield, child_asleep, child_store, child_wake, child_wake_yield, child_done, parent_to,
  child_to, interrupt_parent, interrupt_child,
}
use cse.Tasks.Switch.Finish.{at}
use cse.Tasks.Switch.Rank.{rank, rank_at, round_rank, waking, waiting, sleeping}

module _ (w left : ℕ) where
  woken-rank : (ch : ChildAt) → 11 * left + waiting 2 ch ≤ 11 * left + sleeping ch + 3
  unfolding waiting sleeping
  woken-rank child_init = omega arith
  woken-rank child_yield = omega arith
  woken-rank child_wait = omega arith
  woken-rank child_wait_yield = omega arith
  woken-rank child_asleep = omega arith
  woken-rank child_store = omega arith
  woken-rank child_wake = omega arith
  woken-rank child_wake_yield = omega arith
  woken-rank child_done = omega arith

  pub interrupt_parent-rank :
      (pa : ParentAt) (ch : ChildAt)
      → rank (interrupt_parent pa (at w left pa ch)) ≤ rank (at w left pa ch) + 3
  unfolding rank rank_at round_rank interrupt_parent parent_to
  interrupt_parent-rank parent_asleep ch = woken-rank ch
  interrupt_parent-rank parent_init ch = omega arith
  interrupt_parent-rank parent_store ch = omega arith
  interrupt_parent-rank parent_wake ch = omega arith
  interrupt_parent-rank parent_wake_yield ch = omega arith
  interrupt_parent-rank parent_yield ch = omega arith
  interrupt_parent-rank parent_wait ch = omega arith
  interrupt_parent-rank parent_wait_yield ch = omega arith
  interrupt_parent-rank parent_done ch = omega arith

  roused-rank :
      (pa : ParentAt)
      → rank (interrupt_child child_asleep (at w left pa child_asleep))
        ≤ rank (at w left pa child_asleep) + 3
  unfolding rank rank_at round_rank waking waiting sleeping interrupt_child child_to
  roused-rank parent_init = omega arith
  roused-rank parent_store = omega arith
  roused-rank parent_wake = omega arith
  roused-rank parent_wake_yield = omega arith
  roused-rank parent_yield = omega arith
  roused-rank parent_wait = omega arith
  roused-rank parent_wait_yield = omega arith
  roused-rank parent_asleep = omega arith
  roused-rank parent_done = omega arith

  pub interrupt_child-rank :
      (pa : ParentAt) (ch : ChildAt)
      → rank (interrupt_child ch (at w left pa ch)) ≤ rank (at w left pa ch) + 3
  unfolding interrupt_child
  interrupt_child-rank pa child_asleep = roused-rank pa
  interrupt_child-rank pa child_init = omega arith
  interrupt_child-rank pa child_yield = omega arith
  interrupt_child-rank pa child_wait = omega arith
  interrupt_child-rank pa child_wait_yield = omega arith
  interrupt_child-rank pa child_store = omega arith
  interrupt_child-rank pa child_wake = omega arith
  interrupt_child-rank pa child_wake_yield = omega arith
  interrupt_child-rank pa child_done = omega arith
