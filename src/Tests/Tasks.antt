-- ===== src/Tests/Tasks.antt =====
-- The programs about threads and processes, at concrete inputs.
use cse.Base.{
  ℕ, ◌≡◌, refl, inl, inr, [], ◌∷◌, arith, List, String, none, some, get_elem?, length, replicate,
  zero, suc,
}
use cse.Base.Int.{ℤ, pos}
use cse.Double.Milli.{Milli, milli_double}
use cse.Common.Stats.{Qsort}
use cse.Machine.{Trace, done, looping, calls, tally, Kernel}
use cse.Tasks.Switch.{
  parent_done, child_done, parent_asleep, child_asleep, child_yield, child_init, child_wake, step,
  step_child, step_parent, interrupt_child, child_to, parent_to, store, parent_wakes, Move,
  parent_runs, child_runs, child_signal, run, start, State, child_wakes, next_rounds, parent_loop,
  child_loop,
}
use cse.Tasks.Switch.Turns.{Turn}
use cse.Tasks.Switch.Alternate.{run-Turn}
use cse.Tasks.Fairness.{AllBlocks, concat}
use cse.Tasks.Switch.Fair.{IsFair, signals, run_fair-Done}
use cse.Tasks.Switch.Finish.{CanFinish, run-CanFinish}
use cse.Tasks.Rounds.History.{
  Answer, after, parent_history, child_history, parent_answer, child_answer, parent_runs_answer,
  child_runs_answer, parent_woken, child_woken,
}
use cse.Tasks.Rounds.Wakes.{wakes, woken}
use cse.Tasks.Rounds.HandOver.{run-wakes}
use cse.Tasks.Rounds.Refines.{parent_side, child_side, run-sides}
use cse.Tasks.Contention.{child}
use cse.Tasks.Contention.Sequence.{block_reads, child-unallocated}
use cse.Tests.Kernels.{silent, number}

-- The child goes to sleep, a signal wakes it, and it retries.
abbrev moves : List Move
moves =
    child_runs ∷ parent_runs ∷ child_runs ∷ child_signal ∷ child_runs ∷ child_runs ∷ parent_runs
    ∷ parent_runs ∷ parent_runs ∷ child_runs ∷ []

moves_run : (run moves (start child_yield 0 3)).child ≡ child_wake
unfolding run start step step_child step_parent interrupt_child child_to parent_to store
    parent_wakes
moves_run = refl

run-Turn_example :
    Turn (run moves (start child_yield 0 3))
    × ¬ (
        ((run moves (start child_yield 0 3)).parent ≡ parent_asleep)
        × ((run moves (start child_yield 0 3)).child ≡ child_asleep))
run-Turn_example = run-Turn child_yield 0 2 moves (inl refl)

run-CanFinish_example : CanFinish (run moves (start child_init 0 100000))
run-CanFinish_example = run-CanFinish child_init 0 99999 moves (inr refl)

-- The sides run in turn, after one signal.
abbrev turns : List Move
turns = parent_runs ∷ child_runs ∷ []

abbrev fair_blocks : List (List Move)
fair_blocks = (child_signal ∷ turns) ∷ replicate 18 turns

turns-IsFair : (n : ℕ) → AllBlocks IsFair (replicate n turns)
turns-IsFair zero = tt
turns-IsFair (suc n) = ((inl refl, inr (inl refl)), turns-IsFair n)

run_fair-Done_example :
    ((run (concat fair_blocks) (start child_yield 0 1)).parent ≡ parent_done)
    × ((run (concat fair_blocks) (start child_yield 0 1)).child ≡ child_done)
unfolding signals
run_fair-Done_example =
    run_fair-Done child_yield 0 0 fair_blocks (inl refl)
      ((inr (inl refl), inr (inr (inl refl))), turns-IsFair 18) (omega arith)

-- One round: the child sleeps, the parent wakes it, waits too early, yields, and sleeps.
abbrev one_round : List Move
one_round =
    parent_runs ∷ parent_runs ∷ child_runs ∷ child_runs ∷ parent_runs ∷ parent_runs ∷ parent_runs
    ∷ parent_runs ∷ child_runs ∷ parent_runs ∷ child_runs ∷ []

-- a kernel that gives the answers of a history in turn
abbrev script : List (Answer Milli) → Kernel Milli
script xs t c = number (elim (get_elem? xs (length t)) [ none ↦ pos 0 | some a ↦ a.value ])

abbrev at_first : State
at_first = start child_yield 0 1

abbrev parents : List (Answer Milli)
parents = parent_history (pos 4096) one_round at_first

abbrev children : List (Answer Milli)
children = child_history (pos 4096) one_round at_first

run-sides_example :
    (parent_side 11 (pos 4096) 1 (script parents) [] ≡ done tt (after (script parents) parents []))
    × (child_side child_yield 11 (pos 4096) 1 (script children) []
        ≡ done tt (after (script children) children []))
unfolding start run step step_parent step_child parent_to child_to store parent_wakes child_wakes
    next_rounds parent_loop child_loop parent_history child_history parent_answer child_answer
    parent_runs_answer child_runs_answer parent_woken child_woken
run-sides_example =
    run-sides (script parents) (script children) (pos 4096) 11 0 0 child_yield one_round [] []
      (inl refl) (omega arith) refl (refl, (refl, (refl, (refl, (refl, (refl, (refl, tt)))))))
      (refl, (refl, (refl, (refl, tt))))

run-wakes_example :
    (wakes parents ≡ 1) × (woken children ≡ 1) × (wakes children ≡ 1) × (woken parents ≡ 1)
unfolding start run step step_parent step_child parent_to child_to store parent_wakes child_wakes
    next_rounds parent_loop child_loop
run-wakes_example = run-wakes Milli (pos 4096) child_yield 0 0 one_round (inl refl) refl

abbrev leave_ints : Qsort ℤ
leave_ints compare xs = xs

abbrev one_name : ℕ → String
one_name id = "test0.file"

child-unallocated_example :
    (t' : Trace Milli) × (child one_name 50 (pos 5) 0 silent [] ≡ looping t')
    × (tally block_reads (calls t') ≡ 50)
unfolding calls tally
child-unallocated_example = child-unallocated silent one_name 50 (pos 5) 0 [] refl refl refl refl
