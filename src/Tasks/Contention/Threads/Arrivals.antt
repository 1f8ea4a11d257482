-- ===== src/Tasks/Contention/Threads/Arrivals.antt =====
-- What a thread of file_contention.c does in an interleaving: an account that the machine gives of it.
use cse.Base.{
  ltb, Bool-cases, inl, inr, ℕ, ◌+◌, ◌≡◌, refl, ap, sym, ◌∙◌, List, [], ◌∷◌, Option, none, some,
  arith,
}
use mathlib.Core.Logic.{ite}
use native.Mathlib.Decide.{ℕ_discrete}
use cse.Tasks.Contention.Threads.{
  MainAt, main_init, main_create, main_arrive, main_waits, main_measures, main_done, ChildAt,
  unborn, child_starts, child_named, child_waits, child_reads, child_lost, Thread, main_thread,
  child_thread, State, main_to, child_to, set_barrier, set_baton, wake_main, wake_child, wake,
  main_arrives, child_arrives, step_main, read_id, read_barrier, step_child, Move, main_runs,
  child_runs, step_unless_done, step, run, start,
}
use cse.Tasks.Contention.Threads.Owns.{IsInv, step-Inv, start-Inv}
use cse.Tasks.Contention.{num_threads}
use cse.Tasks.Contention.Threads.Readers.{run-Own}
use cse.Tasks.Contention.Threads.History.{Mark, barrier_reached}

-- the mark of a step of a thread, from where it stands and the baton
abbrev arrival : ChildAt → Option ℕ → List Mark → List Mark
arrival (child_named id) (some round) older = barrier_reached id ∷ older
arrival _ _ older = older

abbrev arrival_unless_done : MainAt → ChildAt → Option ℕ → List Mark → List Mark
arrival_unless_done main_done x baton older = older
arrival_unless_done _ x baton older = arrival x baton older

abbrev mark_child : (j : ℕ) → Move → State → List Mark → List Mark
mark_child j main_runs s older = older
mark_child j (child_runs i) s older =
    ite (ℕ_discrete i j) (arrival_unless_done s.main (s.children i) s.baton older) older

-- the marks that a schedule leaves for thread `j`
unfoldable pub child_history : (j : ℕ) → (schedule : List Move) → State → List Mark → List Mark
child_history j [] s older = older
child_history j (m ∷ schedule) s older =
    child_history j schedule (step m s) (mark_child j m s older)

-- the reads that thread `j` makes in a schedule: it makes one in each step in its loop
abbrev read_in : MainAt → ChildAt → ℕ
read_in main_done x = 0
read_in _ (child_reads id) = 1
read_in _ _ = 0

abbrev reads_of_move : (j : ℕ) → Move → State → ℕ
reads_of_move j main_runs s = 0
reads_of_move j (child_runs i) s = ite (ℕ_discrete i j) (read_in s.main (s.children i)) 0

unfoldable pub reads_of : (j : ℕ) → (schedule : List Move) → State → ℕ
reads_of j [] s = 0
reads_of j (m ∷ schedule) s = reads_of_move j m s + reads_of j schedule (step m s)

-- the marks up to where the thread stands
abbrev reached : ChildAt → List Mark → List Mark
reached (child_waits id) older = barrier_reached id ∷ older
reached (child_reads id) older = barrier_reached id ∷ older
reached _ older = older

module _ (j : ℕ) (older : List Mark) where
  -- where thread `j` stands, by its marks
  abbrev at : State → List Mark
  at s = reached (s.children j) older

  child_to-at :
      (i : ℕ) (x : ChildAt) (s : State)
      → reached x older ≡ reached (s.children i) older
      → at (child_to i x s) ≡ at s
  unfolding child_to
  child_to-at i x s h =
      elim (ℕ_discrete i j) as (λ d. reached (ite d x (s.children j)) older ≡ at s) [
        | yes same ↦ h ∙ ap (λ n. reached (s.children n) older) same
        | no other ↦ refl
      ]

  -- a thread that wakes up has come to its barrier before
  wake_child-at :
      (i : ℕ) (x : ChildAt) (s : State) → s.children i ≡ x → at (wake_child i x s) ≡ at s
  unfolding wake_child
  wake_child-at i (child_waits id) s e =
      child_to-at i (child_reads id) s (ap (λ x. reached x older) (sym e))
  wake_child-at i unborn s e = refl
  wake_child-at i child_starts s e = refl
  wake_child-at i (child_named id) s e = refl
  wake_child-at i (child_reads id) s e = refl
  wake_child-at i child_lost s e = refl

  wake_main-at : (m : MainAt) (s : State) → at (wake_main m s) ≡ at s
  unfolding wake_main main_to
  wake_main-at (main_waits i) s = refl
  wake_main-at (main_init i) s = refl
  wake_main-at (main_create i) s = refl
  wake_main-at (main_arrive i) s = refl
  wake_main-at (main_measures i) s = refl
  wake_main-at main_done s = refl

  wake-at : (other : Thread) (s : State) → at (wake other s) ≡ at s
  unfolding wake
  wake-at main_thread s = wake_main-at s.main s
  wake-at (child_thread i) s = wake_child-at i (s.children i) s refl

  unmoved : (i : ℕ) (l : List Mark) → ite (ℕ_discrete i j) l l ≡ l
  unmoved i l = elim (ℕ_discrete i j) as (λ d. ite d l l ≡ l) [ yes same ↦ refl | no other ↦ refl ]

  -- a step to the barrier, where thread `i` stands afterwards
  arrives-at :
      (i id : ℕ) (x : ChildAt) (s : State)
      → s.children i ≡ child_named id
      → reached x older ≡ barrier_reached id ∷ older
      → ite (ℕ_discrete i j) (barrier_reached id ∷ at s) (at s) ≡ at (child_to i x s)
  unfolding child_to
  arrives-at i id x s e h =
      elim (ℕ_discrete i j)
        as (λ d.
          ite d (barrier_reached id ∷ at s) (at s) ≡ reached (ite d x (s.children j)) older) [
            | yes same ↦
                ap (λ l. barrier_reached id ∷ l)
                  (ap (λ n. reached (s.children n) older) (sym same) ∙ ap (λ y. reached y older) e)
                ∙ sym h
            | no other ↦ refl
          ]

  child_arrives-at :
      (i id : ℕ) (who : Option Thread) (s : State)
      → s.children i ≡ child_named id
      → ite (ℕ_discrete i j) (barrier_reached id ∷ at s) (at s) ≡ at (child_arrives i id who s)
  unfolding child_arrives set_barrier
  child_arrives-at i id none s e =
      arrives-at i id (child_waits id) (set_barrier (some (child_thread i)) s) e refl
  child_arrives-at i id (some other) s e =
      arrives-at i id (child_reads id) (set_barrier none s) e refl
      ∙ sym (wake-at other (child_to i (child_reads id) (set_barrier none s)))

  abbrev stepped : (i : ℕ) → ChildAt → Option ℕ → State → List Mark
  stepped i x baton s = ite (ℕ_discrete i j) (arrival x baton (at s)) (at s)

  read_id-at :
      (i : ℕ) (baton : Option ℕ) (s : State)
      → s.children i ≡ child_starts
      → stepped i child_starts baton s ≡ at (read_id i baton s)
  unfolding read_id
  read_id-at i none s e =
      unmoved i (at s) ∙ sym (child_to-at i child_lost s (ap (λ x. reached x older) (sym e)))
  read_id-at i (some id) s e =
      unmoved i (at s) ∙ sym (child_to-at i (child_named id) s (ap (λ x. reached x older) (sym e)))

  read_barrier-at :
      (i id : ℕ) (baton : Option ℕ) (s : State)
      → s.children i ≡ child_named id
      → stepped i (child_named id) baton s ≡ at (read_barrier i id baton s)
  unfolding read_barrier
  read_barrier-at i id none s e =
      unmoved i (at s) ∙ sym (child_to-at i child_lost s (ap (λ x. reached x older) (sym e)))
  read_barrier-at i id (some round) s e = child_arrives-at i id s.barrier s e

  step_child-at :
      (i : ℕ) (x : ChildAt) (s : State)
      → s.children i ≡ x
      → stepped i x s.baton s ≡ at (step_child i x s)
  unfolding step_child
  step_child-at i unborn s e = unmoved i (at s)
  step_child-at i child_starts s e = read_id-at i s.baton s e
  step_child-at i (child_named id) s e = read_barrier-at i id s.baton s e
  step_child-at i (child_waits id) s e = unmoved i (at s)
  step_child-at i (child_reads id) s e = unmoved i (at s)
  step_child-at i child_lost s e = unmoved i (at s)

  unless_done-at :
      (m : MainAt) (i : ℕ) (s : State)
      → ite (ℕ_discrete i j) (arrival_unless_done m (s.children i) s.baton (at s)) (at s)
        ≡ at (step_unless_done m i s)
  unfolding step_unless_done
  unless_done-at (main_init n) i s = step_child-at i (s.children i) s refl
  unless_done-at (main_create n) i s = step_child-at i (s.children i) s refl
  unless_done-at (main_arrive n) i s = step_child-at i (s.children i) s refl
  unless_done-at (main_waits n) i s = step_child-at i (s.children i) s refl
  unless_done-at (main_measures n) i s = step_child-at i (s.children i) s refl
  unless_done-at main_done i s = unmoved i (at s)

  main_arrives-at : (i : ℕ) (who : Option Thread) (s : State) → at (main_arrives i who s) ≡ at s
  unfolding main_arrives main_to set_barrier
  main_arrives-at i none s = refl
  main_arrives-at i (some other) s = wake-at other (main_to (main_measures i) (set_barrier none s))

  module _ (baton : Option ℕ) (barrier : Option Thread) (c : ℕ → ChildAt) where
    abbrev with_main : MainAt → State
    with_main m = record { main = m; baton = baton; barrier = barrier; children = c }

    step_main-at :
        (m : MainAt) → IsInv (with_main m) → at (step_main m (with_main m)) ≡ at (with_main m)
    unfolding step_main main_to set_baton set_barrier
    step_main-at (main_init i) v = elim (Bool-cases (ltb i num_threads)) [
      | inl lt ↦ rw lt refl
      | inr ge ↦ rw ge refl
    ]
    step_main-at (main_create i) v =
        child_to-at i child_starts (with_main (main_create i))
          (ap (λ x. reached x older) (sym (v.new i (omega arith))))
    step_main-at (main_arrive i) v = main_arrives-at i barrier (with_main (main_arrive i))
    step_main-at (main_waits i) v = refl
    step_main-at (main_measures i) v = refl
    step_main-at main_done v = refl

  step-at : (m : Move) (s : State) → IsInv s → mark_child j m s (at s) ≡ at (step m s)
  unfolding step
  step-at main_runs s v = sym (step_main-at s.baton s.barrier s.children s.main v)
  step-at (child_runs i) s v = unless_done-at s.main i s

  child_history-at :
      (schedule : List Move) (s : State)
      → IsInv s
      → child_history j schedule s (at s) ≡ at (run schedule s)
  unfolding child_history run
  child_history-at [] s v = refl
  child_history-at (m ∷ schedule) s v =
      rw (step-at m s v) (child_history-at schedule (step m s) (step-Inv m s v))

-- In an interleaving that brings thread `j` into its loop, the thread has come to its own barrier, once.
pub child_history-barrier_reached :
    (schedule : List Move) (j : ℕ) (older : List Mark) (id : ℕ)
    → (run schedule start).children j ≡ child_reads id
    → child_history j schedule start older ≡ barrier_reached j ∷ older
child_history-barrier_reached schedule j older id e =
    let own : id ≡ j = rw e at (run-Own schedule j).0 in
    child_history-at j older schedule start start-Inv
    ∙ ap (λ x. reached x older) e
    ∙ ap (λ n. barrier_reached n ∷ older) own
