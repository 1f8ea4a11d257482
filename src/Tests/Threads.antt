-- ===== src/Tests/Threads.antt =====
-- The threads of file_contention.c, at concrete schedules.
use cse.Base.{ℕ, zero, suc, ◌≡◌, refl, String, List, [], ◌∷◌, ◌++◌, replicate, arith}
use cse.Double.Milli.{Milli, milli_double}
use cse.Tasks.Contention
use native.Mathlib.Decide.{ℕ_discrete}
use cse.Tasks.Fairness.{AllBlocks, concat}
use cse.Tasks.Contention.Threads.{
  main_measures, main_done, child_reads, Move, main_runs, child_runs, run, start, step, step_main,
  step_child, step_unless_done, main_to, child_to, set_baton, set_barrier, main_arrives,
  child_arrives, wake, wake_main, wake_child, read_id, read_barrier,
}
use cse.Tasks.Contention.Threads.Readers.{Own, Beside, run-Own}
use cse.Tasks.Contention.Threads.Ends.{IsFair, run_fair-main_done}
use cse.Tasks.Contention.Threads.Arrivals.{reads_of}

-- The first thread comes to the barrier after `main`, the second before.
abbrev two_rounds : List Move
two_rounds =
    main_runs
    ∷ main_runs
    ∷ main_runs
    ∷ child_runs 0
    ∷ child_runs 1
    ∷ child_runs 0
    ∷ main_runs
    ∷ main_runs
    ∷ main_runs
    ∷ child_runs 1
    ∷ child_runs 1
    ∷ child_runs 0
    ∷ main_runs
    ∷ []

two_rounds_run :
    ((run two_rounds start).main ≡ main_measures 1)
    × ((run two_rounds start).children 1 ≡ child_reads 1)
unfolding run step step_main step_child step_unless_done main_to child_to set_baton set_barrier
    main_arrives child_arrives wake wake_main wake_child read_id read_barrier ℕ_discrete
two_rounds_run = (refl, refl)

run-Own_example :
    Own 1 ((run two_rounds start).children 1)
    × Beside (run two_rounds start).main (run two_rounds start).children
run-Own_example = run-Own two_rounds 1

-- all run in turn, the last thread first
abbrev fair_block : List Move
fair_block =
    child_runs 9
    ∷ child_runs 8
    ∷ child_runs 7
    ∷ child_runs 6
    ∷ child_runs 5
    ∷ child_runs 4
    ∷ child_runs 3
    ∷ child_runs 2
    ∷ child_runs 1
    ∷ child_runs 0
    ∷ main_runs
    ∷ []

fair_block-IsFair : IsFair fair_block
fair_block-IsFair = ground arith

blocks-IsFair : (n : ℕ) → AllBlocks IsFair (replicate n fair_block)
blocks-IsFair zero = tt
blocks-IsFair (suc n) = (fair_block-IsFair, blocks-IsFair n)

run_fair-main_done_example : (run (concat (replicate 72 fair_block)) start).main ≡ main_done
run_fair-main_done_example =
    run_fair-main_done (replicate 72 fair_block) (blocks-IsFair 72) (omega arith)

abbrev second_name : ℕ → String
second_name id = "test1.file"

-- the second thread goes on to read two blocks
abbrev two_reads : List Move
two_reads = two_rounds ++ child_runs 1 ∷ child_runs 1 ∷ []

two_reads_count : reads_of 1 two_reads start ≡ 2
unfolding run step step_main step_child step_unless_done main_to child_to set_baton set_barrier
    main_arrives child_arrives wake wake_main wake_child read_id read_barrier ℕ_discrete reads_of
two_reads_count = refl
