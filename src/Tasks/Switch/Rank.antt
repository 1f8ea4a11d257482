-- ===== src/Tasks/Switch/Rank.antt =====
-- A measure of the machine: each move of the side that the other waits for makes it smaller, and no move
-- of either side makes it larger.
pub mod ParentTurn
pub mod ChildTurn
pub mod Signals
use cse.Base.{ℕ, zero, suc, ◌+◌, ◌*◌, ◌≤◌, ◌<◌, ◌≡◌, ◌≢◌, refl, ◌⊎◌, inl, inr, ◌==◌, arith}
use cse.Tasks.Switch.{
  ParentAt, parent_init, parent_store, parent_wake, parent_wake_yield, parent_yield, parent_wait,
  parent_wait_yield, parent_asleep, parent_done, ChildAt, child_init, child_yield, child_wait,
  child_wait_yield, child_asleep, child_store, child_wake, child_wake_yield, child_done, State,
  parent_loop, child_loop, next_rounds, parent_to, child_to, store, parent_wakes, child_wakes,
  step_parent, step_child, Move, parent_runs, child_runs, step,
}

-- the rest of a round while the parent is about to wake the child, `yields` being 1 before its yield
unfoldable pub waking : (yields : ℕ) → ChildAt → ℕ
waking yields child_asleep = 8 + yields
waking yields child_init = 12
waking yields child_yield = 11
waking yields child_wait_yield = 11
waking yields child_wait = 10
waking yields _ = 0

-- the rest of a round while the child has the turn and the parent has `d` steps to its sleep
unfoldable pub waiting : (d : ℕ) → ChildAt → ℕ
waiting d child_store = 7
waiting d child_wake = 4 + d
waiting d child_wake_yield = 4 + d
waiting d _ = 0

-- the same while the parent sleeps
unfoldable pub sleeping : ChildAt → ℕ
sleeping child_store = 7
sleeping child_wake_yield = 4
sleeping child_wake = 3
sleeping _ = 0

-- the rest of the current round
unfoldable pub round_rank : ParentAt → ChildAt → ℕ
round_rank parent_init ch = 14
round_rank parent_store ch = 13
round_rank parent_wake ch = waking 0 ch
round_rank parent_wake_yield ch = waking 1 ch
round_rank parent_yield ch = waiting 2 ch
round_rank parent_wait_yield ch = waiting 2 ch
round_rank parent_wait ch = waiting 1 ch
round_rank parent_asleep ch = sleeping ch
round_rank parent_done ch = 0

unfoldable pub rank_at : (rounds : ℕ) → ParentAt → ChildAt → ℕ
rank_at zero pa ch = 0
rank_at (suc left) pa ch = 11 * left + round_rank pa ch

unfoldable pub rank : State → ℕ
rank s = rank_at s.parent_rounds s.parent s.child

-- the side whose move takes the round further, while the parent is about to wake the child
unfoldable pub helpful_waking : ChildAt → Move
helpful_waking child_asleep = parent_runs
helpful_waking _ = child_runs

-- the same while the child has the turn and the parent does not sleep
unfoldable pub helpful_waiting : ChildAt → Move
helpful_waiting child_store = child_runs
helpful_waiting _ = parent_runs

unfoldable pub helpful_at : ParentAt → ChildAt → Move
helpful_at parent_init ch = parent_runs
helpful_at parent_store ch = parent_runs
helpful_at parent_wake ch = helpful_waking ch
helpful_at parent_wake_yield ch = helpful_waking ch
helpful_at parent_yield ch = helpful_waiting ch
helpful_at parent_wait ch = helpful_waiting ch
helpful_at parent_wait_yield ch = helpful_waiting ch
helpful_at parent_asleep ch = child_runs
helpful_at parent_done ch = child_runs

unfoldable pub helpful : State → Move
helpful s = helpful_at s.parent s.child

-- It is one of the two.
abbrev pub Runs : Move → Type 0
Runs m = (m ≡ parent_runs) ⊎ (m ≡ child_runs)

helpful_waking-Runs : (ch : ChildAt) → Runs (helpful_waking ch)
unfolding helpful_waking
helpful_waking-Runs child_init = inr refl
helpful_waking-Runs child_yield = inr refl
helpful_waking-Runs child_wait = inr refl
helpful_waking-Runs child_wait_yield = inr refl
helpful_waking-Runs child_asleep = inl refl
helpful_waking-Runs child_store = inr refl
helpful_waking-Runs child_wake = inr refl
helpful_waking-Runs child_wake_yield = inr refl
helpful_waking-Runs child_done = inr refl

helpful_waiting-Runs : (ch : ChildAt) → Runs (helpful_waiting ch)
unfolding helpful_waiting
helpful_waiting-Runs child_init = inl refl
helpful_waiting-Runs child_yield = inl refl
helpful_waiting-Runs child_wait = inl refl
helpful_waiting-Runs child_wait_yield = inl refl
helpful_waiting-Runs child_asleep = inl refl
helpful_waiting-Runs child_store = inr refl
helpful_waiting-Runs child_wake = inl refl
helpful_waiting-Runs child_wake_yield = inl refl
helpful_waiting-Runs child_done = inl refl

helpful_at-Runs : (pa : ParentAt) (ch : ChildAt) → Runs (helpful_at pa ch)
unfolding helpful_at
helpful_at-Runs parent_init ch = inl refl
helpful_at-Runs parent_store ch = inl refl
helpful_at-Runs parent_wake ch = helpful_waking-Runs ch
helpful_at-Runs parent_wake_yield ch = helpful_waking-Runs ch
helpful_at-Runs parent_yield ch = helpful_waiting-Runs ch
helpful_at-Runs parent_wait ch = helpful_waiting-Runs ch
helpful_at-Runs parent_wait_yield ch = helpful_waiting-Runs ch
helpful_at-Runs parent_asleep ch = inr refl
helpful_at-Runs parent_done ch = inr refl

pub helpful-Runs : (s : State) → Runs (helpful s)
unfolding helpful
helpful-Runs s = helpful_at-Runs s.parent s.child

-- The measure gets smaller, or nothing has changed for the side that the other waits for.
abbrev pub Progress : Move → State → State → Type 0
Progress m s s' =
    (rank s' < rank s) ⊎ ((rank s' ≡ rank s) × (helpful s' ≡ helpful s) × (m ≢ helpful s))
