-- ===== src/Tests/Switch.antt =====
-- The programs of the context switch as a whole, on a schedule of a hundred thousand rounds.
use cse.Base.{
  ℕ, suc, ◌+◌, ◌-◌, ◌≡◌, refl, ◌∙◌, sym, ap, inl, inr, false, ltb, none, some, List, [], ◌∷◌,
  length, get_elem?, drop, if◌then◌else◌, arith,
}
use cse.Base.Arrays.{get_elem?-drop, drop-cons}
use cse.Base.Int.{pos}
use cse.Double.Milli.{Milli, milli_double}
use cse.Machine.{Kernel, Trace, done, exited, log, printf, int, wait_child, waitpid}
use cse.Common.Setup.{init_test, set_process_cpu_and_freq}
use cse.Tasks.Switch.{
  child_init, child_yield, Move, parent_runs, run, start, step, step_parent, parent_to, store,
}
use cse.Tasks.Switch.Finish.{CanFinish, run-CanFinish}
use cse.Tasks.Rounds.{thread_main, process_main, switch_time}
use cse.Tasks.Rounds.History.{Answer, Replays}
use cse.Tasks.Rounds.Main.{
  Whole, loop_history, clock, report, thread_ready, thread_after, thread_main-history,
  process_ready, process_after, process_total, process_main-history,
}
use cse.Tests.Kernels.{number, with_memory}
use cse.Tests.Started.{set_up}

-- The first calls succeed, `first` of them, and then the kernel gives the answers of a list in turn.
abbrev scripted : (first : ℕ) → List (Answer Milli) → Kernel Milli
scripted first xs t c =
    if ltb (length t) first
    then with_memory c
    else number (elim (get_elem? xs (length t - first)) [ none ↦ pos 0 | some a ↦ a.value ])

scripted-Replays :
    (first : ℕ) (all xs : List (Answer Milli)) (i : ℕ) (t : Trace Milli)
    → drop i all ≡ xs
    → length t ≡ first + i
    → Replays (scripted first all) xs t
scripted-Replays first all [] i t e n = tt
scripted-Replays first all (a ∷ xs) i t e n =
    let late : ltb (length t) first ≡ false = ground arith in
    let place : length t - first ≡ i = omega arith in
    let index : i + 0 ≡ i = omega arith in
    let here : get_elem? all i ≡ some a =
      ap (get_elem? all) (sym index) ∙ sym (get_elem?-drop i 0 all) ∙ ap (λ l. get_elem? l 0) e in
    let rest : drop (suc i) all ≡ xs = ap (λ l. drop 1 l) (sym (drop-cons i all a here) ∙ e) in
    (rw (late, place, here) refl, scripted-Replays first all xs (suc i) _ rest (omega arith))

abbrev earlier : List Move
earlier = parent_runs ∷ []

thread_finish : CanFinish (run earlier (start child_yield 0 100000))
thread_finish = run-CanFinish child_yield 0 99999 earlier (inl refl)

process_finish : CanFinish (run earlier (start child_init 0 100000))
process_finish = run-CanFinish child_init 0 99999 earlier (inr refl)

thread-Whole : Whole child_yield (length thread_finish.rest) earlier thread_finish.rest 0
unfolding run step start step_parent parent_to store
thread-Whole = record {
  begins = inl refl;
  enough = omega arith;
  at_loop = refl;
  rounds_left = refl;
  ends = thread_finish.parent_ends;
}

process-Whole : Whole child_init (length process_finish.rest) earlier process_finish.rest 0
unfolding run step start step_parent parent_to store
process-Whole = record {
  begins = inr refl;
  enough = omega arith;
  at_loop = refl;
  rounds_left = refl;
  ends = process_finish.parent_ends;
}

-- the kernels that give the answers of the machine
abbrev thread_kernel : Kernel Milli
thread_kernel = scripted 11 (loop_history (pos 0) child_yield earlier thread_finish.rest 0)

abbrev process_kernel : Kernel Milli
process_kernel = scripted 11 (loop_history (pos 0) child_init earlier process_finish.rest 0)

thread_started : init_test thread_kernel [] ≡ done (pos 0) (set_up thread_kernel)
unfolding init_test set_process_cpu_and_freq
thread_started = refl

process_started : init_test process_kernel [] ≡ done (pos 0) (set_up process_kernel)
unfolding init_test set_process_cpu_and_freq
process_started = refl

abbrev thread_before : Trace Milli
thread_before =
    thread_ready thread_kernel (length thread_finish.rest) earlier thread_finish.rest 0 []
      (set_up thread_kernel)

abbrev thread_behind : Trace Milli
thread_behind =
    thread_after thread_kernel (length thread_finish.rest) earlier thread_finish.rest 0 []
      (set_up thread_kernel)

thread_main-history_example :
    thread_main (length thread_finish.rest) thread_kernel []
    ≡ done (pos 0) (
        log thread_kernel
          (log thread_kernel (log thread_kernel thread_behind clock) (
            report Milli
              "%i THREAD context switches in %llu cycles (%llu cycles per context switch)\n"
              (switch_time Milli
                (thread_kernel thread_before clock).time
                (thread_kernel thread_behind clock).time)))
          wait_child)
thread_main-history_example =
    thread_main-history thread_kernel (length thread_finish.rest) earlier thread_finish.rest 0 []
      (set_up thread_kernel) thread_started refl thread-Whole
      (scripted-Replays 11 _ _ 0 (log thread_kernel thread_before clock) refl refl)

abbrev process_before : Trace Milli
process_before =
    process_ready process_kernel (length process_finish.rest) earlier process_finish.rest 0 []
      (set_up process_kernel)

abbrev process_behind : Trace Milli
process_behind =
    process_after process_kernel (length process_finish.rest) earlier process_finish.rest 0 []
      (set_up process_kernel)

abbrev time_of_processes : ℕ
time_of_processes =
    process_total process_kernel (length process_finish.rest) earlier process_finish.rest 0 []
      (set_up process_kernel)

process_main-history_example :
    process_main (length process_finish.rest) process_kernel []
    ≡ exited (pos 0) (
        log process_kernel
          (log process_kernel
            (log process_kernel
              (log process_kernel process_behind clock)
              (printf "%llu\n" (int (pos time_of_processes) ∷ [])))
            (report Milli
              "%i PROCESS context switches in %llu cycles (%llu cycles per context switch)\n"
              time_of_processes))
          (waitpid (pos 77)))
process_main-history_example =
    process_main-history process_kernel (length process_finish.rest) earlier process_finish.rest 0
      [] (set_up process_kernel) process_started refl refl refl process-Whole
      (scripted-Replays 11 _ _ 0 (log process_kernel process_before clock) refl refl)
