-- ===== src/Tasks/Rounds/Refines.antt =====
-- The machine of `Tasks.Switch` against the programs: each side of a run of the machine that ends is a run
-- of that side's program, with the same calls in the same order and the answers that the futex gave.
use cse.Base.{ℕ, suc, ◌≤◌, ◌≡◌, ◌∙◌, ◌⊎◌, inl, inr, List, length}
use cse.Base.Int.{ℤ}
use cse.Machine.{store as store_call, Kernel, Trace, M, done, log, ◌>>◌, call, repeat}
use cse.Tasks.Switch.{
  parent_init, parent_done, ChildAt, child_init, child_yield, child_done, State, parent_loop,
  child_loop, Move, run, start,
}
use cse.Tasks.Switch.Turns.{Turn, parent_turn, child_turn, finished}
use cse.Tasks.Switch.Alternate.{start-Turn, run-keeps}
use cse.Tasks.Rounds.{parent_round, child_round}
use cse.Tasks.Rounds.History.{Replays, after, parent_history, child_history}
use cse.Tasks.Rounds.ParentRest.{parent_rest, parent_from, repeat-parent_rest}
use cse.Tasks.Rounds.ChildRest.{child_rest, child_from, repeat-child_rest}
use cse.Tasks.Rounds.ParentRun.{parent_run}
use cse.Tasks.Rounds.ChildRun.{child_run}

-- what the main thread, or the parent process, does with the shared word
abbrev pub parent_side : {D : Type 0} → (fuel : ℕ) → (futex : ℤ) → (rounds : ℕ) → M D (Unit {0})
parent_side fuel futex rounds = do
  call (store_call futex 10)
  repeat rounds (parent_round fuel futex)

-- what the second thread does with it, and the child process, which begins with a store
abbrev pub child_side :
    {D : Type 0} → ChildAt → (fuel : ℕ) → (futex : ℤ) → (rounds : ℕ) → M D (Unit {0})
child_side child_init fuel futex rounds = do
  call (store_call futex 10)
  repeat rounds (child_round fuel futex)
child_side _ fuel futex rounds = repeat rounds (child_round fuel futex)

Turn-done : (s : State) → Turn s → s.parent ≡ parent_done → s.child ≡ child_done
Turn-done s (parent_turn n e f h g) p = elim (rw p at h) [ ]
Turn-done s (child_turn n e f h g) p = elim (rw p at h) [ ]
Turn-done s (finished e f h g) p = g

module _ {D : Type 0} (k : Kernel D) (futex : ℤ) (fuel left : ℕ) where
  parent_side-rest :
      (t : Trace D)
      → parent_side fuel futex (suc left) k t
        ≡ parent_rest futex fuel parent_init fuel (suc left) k t
  unfolding parent_rest parent_from parent_loop
  parent_side-rest t =
      repeat-parent_rest k futex fuel (suc left) fuel (log k t (store_call futex 10))

  child_side-rest :
      (child : ChildAt) (t : Trace D)
      → (child ≡ child_yield) ⊎ (child ≡ child_init)
      → child_side child fuel futex (suc left) k t ≡ child_rest futex fuel child fuel (suc left) k t
  unfolding child_rest child_from child_loop
  child_side-rest child t (inl e) = rw e (repeat-child_rest k futex fuel (suc left) fuel t)
  child_side-rest child t (inr e) =
      rw e (repeat-child_rest k futex fuel (suc left) fuel (log k t (store_call futex 10)))

-- Take a schedule of the machine, with any signals, that ends the parent, a fuel of at least its length,
-- and two kernels that answer the calls of the parent and of the child as the machine's futex did. Then
-- the programs of both sides come to their end under these kernels, each with the calls of its side in
-- the machine, in the same order and no others.
pub run-sides :
    {D : Type 0} (parent_kernel child_kernel : Kernel D) (futex : ℤ) (fuel word left : ℕ)
    (child : ChildAt) (schedule : List Move) (parent_trace child_trace : Trace D)
    → (child ≡ child_yield) ⊎ (child ≡ child_init)
    → length schedule ≤ fuel
    → (run schedule (start child word (suc left))).parent ≡ parent_done
    → Replays parent_kernel
        (parent_history futex schedule (start child word (suc left)))
        parent_trace
    → Replays child_kernel (child_history futex schedule (start child word (suc left))) child_trace
    → (parent_side fuel futex (suc left) parent_kernel parent_trace
        ≡ done tt (
            after parent_kernel
              (parent_history futex schedule (start child word (suc left)))
              parent_trace))
      × (child_side child fuel futex (suc left) child_kernel child_trace
          ≡ done tt (
              after child_kernel
                (child_history futex schedule (start child word (suc left)))
                child_trace))
unfolding start
run-sides kp kc futex fuel word left child schedule tp tc begins enough ends rp rc =
    let s = start child word (suc left) in
    let turn = start-Turn child word left begins in
    let child_ends = Turn-done (run schedule s) (run-keeps schedule s turn) ends in
    (
      parent_side-rest kp futex fuel left tp
          ∙ parent_run kp futex fuel schedule s fuel tp enough enough turn ends rp,
      child_side-rest kc futex fuel left child tc begins
          ∙ child_run kc futex fuel schedule s fuel tc enough enough turn child_ends rc,
    )
