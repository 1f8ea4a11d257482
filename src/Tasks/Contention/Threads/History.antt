-- ===== src/Tasks/Contention/Threads/History.antt =====
-- What `main` of file_contention.c does in an interleaving, step by step: an account that the machine gives of
-- its main thread, and that depends on the interleaving no more once `main` has returned.
use cse.Base.{
  ℕ, zero, suc, ◌*◌, ◌≡◌, refl, ap, sym, ◌∙◌, List, [], ◌∷◌, true, false, ltb, if◌then◌else◌,
  Option, none, some, arith,
}
use native.Mathlib.Decide.{dec_lt}
use cse.Base.Int.{ℤ, pos}
use cse.Tasks.Contention.{block_size, num_threads, num_blocks_constant}
use cse.Tasks.Contention.Threads.{
  MainAt, main_init, main_create, main_arrive, main_waits, main_measures, main_done, ChildAt,
  unborn, child_starts, child_named, child_waits, child_reads, child_lost, Thread, main_thread,
  child_thread, State, main_to, child_to, set_barrier, set_baton, wake_main, wake_child, wake,
  main_arrives, child_arrives, step_main, read_id, read_barrier, step_child, Move, main_runs,
  child_runs, step_unless_done, step, run, start,
}
use cse.Tasks.Contention.Threads.Owns.{IsInv, step-Inv, start-Inv}

-- what a thread does to the threads and their barriers, and each of its reads
pub data Mark : Type 0 where
  barrier_made : Mark
  thread_made barrier_reached : (i : ℕ) → Mark
  bytes_read : (size : ℕ) → (offset : ℤ) → Mark

-- the reads of `n` blocks from `first` on, in order
unfoldable pub in_order : (n first : ℕ) → List Mark → List Mark
in_order zero first older = older
in_order (suc n) first older =
    in_order n (suc first) (bytes_read block_size (pos (first * block_size)) ∷ older)

-- the marks of a step of `main`, in front of the earlier ones
unfoldable pub mark_main : MainAt → List Mark → List Mark
mark_main (main_init i) older = if ltb i num_threads then barrier_made ∷ older else older
mark_main (main_create i) older = thread_made i ∷ older
mark_main (main_arrive i) older = barrier_reached i ∷ older
mark_main (main_waits i) older = older
mark_main (main_measures i) older = in_order num_blocks_constant 0 older
mark_main main_done older = older

unfoldable pub mark_move : Move → MainAt → List Mark → List Mark
mark_move main_runs at older = mark_main at older
mark_move (child_runs j) at older = older

-- the marks that a schedule leaves, the newest first
unfoldable pub history : (schedule : List Move) → State → List Mark → List Mark
history [] s older = older
history (m ∷ schedule) s older = history schedule (step m s) (mark_move m s.main older)

-- the marks of the first `n` rounds
unfoldable pub rounds : (n : ℕ) → List Mark → List Mark
rounds zero older = older
rounds (suc i) older =
    in_order num_blocks_constant 0
      (barrier_reached i ∷ thread_made i ∷ barrier_made ∷ rounds i older)

-- the marks up to where `main` stands
abbrev so_far : MainAt → List Mark → List Mark
so_far (main_init i) older = rounds i older
so_far (main_create i) older = barrier_made ∷ rounds i older
so_far (main_arrive i) older = thread_made i ∷ barrier_made ∷ rounds i older
so_far (main_waits i) older = barrier_reached i ∷ thread_made i ∷ barrier_made ∷ rounds i older
so_far (main_measures i) older = barrier_reached i ∷ thread_made i ∷ barrier_made ∷ rounds i older
so_far main_done older = rounds 10 older

wake_child-main : (j : ℕ) (x : ChildAt) (s : State) → (wake_child j x s).main ≡ s.main
unfolding wake_child child_to
wake_child-main j unborn s = refl
wake_child-main j child_starts s = refl
wake_child-main j (child_named id) s = refl
wake_child-main j (child_waits id) s = refl
wake_child-main j (child_reads id) s = refl
wake_child-main j child_lost s = refl

module _ (baton : Option ℕ) (barrier : Option Thread) (c : ℕ → ChildAt) (older : List Mark) where
  abbrev at : MainAt → State
  at m = record { main = m; baton = baton; barrier = barrier; children = c }

  arrives-so_far :
      (i : ℕ) (who : Option Thread) (s : State)
      → so_far (main_arrives i who s).main older ≡ so_far (main_waits i) older
  unfolding main_arrives main_to set_barrier wake wake_main
  arrives-so_far i none s = refl
  arrives-so_far i (some main_thread) s = refl
  arrives-so_far i (some (child_thread j)) s =
      ap (λ m. so_far m older)
        (wake_child-main j (s.children j) (main_to (main_measures i) (set_barrier none s)))

  -- a thread that wakes `main` adds nothing
  wake_main-so_far :
      (m : MainAt) (s : State) → s.main ≡ m → so_far (wake_main m s).main older ≡ so_far m older
  unfolding wake_main main_to
  wake_main-so_far (main_waits i) s e = refl
  wake_main-so_far (main_init i) s e = ap (λ m. so_far m older) e
  wake_main-so_far (main_create i) s e = ap (λ m. so_far m older) e
  wake_main-so_far (main_arrive i) s e = ap (λ m. so_far m older) e
  wake_main-so_far (main_measures i) s e = ap (λ m. so_far m older) e
  wake_main-so_far main_done s e = ap (λ m. so_far m older) e

  child_arrives-so_far :
      (m : MainAt) (j id : ℕ) (who : Option Thread)
      → so_far (child_arrives j id who (at m)).main older ≡ so_far m older
  unfolding child_arrives child_to set_barrier wake
  child_arrives-so_far m j id none = refl
  child_arrives-so_far m j id (some main_thread) =
      wake_main-so_far m (child_to j (child_reads id) (set_barrier none (at m))) refl
  child_arrives-so_far m j id (some (child_thread other)) =
      let s = child_to j (child_reads id) (set_barrier none (at m)) in
      ap (λ m. so_far m older) (wake_child-main other (s.children other) s)

  read_id-main : (m : MainAt) (j : ℕ) (b : Option ℕ) → (read_id j b (at m)).main ≡ m
  unfolding read_id child_to
  read_id-main m j none = refl
  read_id-main m j (some id) = refl

  read_barrier-so_far :
      (m : MainAt) (j id : ℕ) (b : Option ℕ)
      → so_far (read_barrier j id b (at m)).main older ≡ so_far m older
  unfolding read_barrier child_to
  read_barrier-so_far m j id none = refl
  read_barrier-so_far m j id (some round) = child_arrives-so_far m j id barrier

  child-so_far :
      (m : MainAt) (j : ℕ) (x : ChildAt)
      → so_far (step_child j x (at m)).main older ≡ so_far m older
  unfolding step_child
  child-so_far m j child_starts = ap (λ m. so_far m older) (read_id-main m j baton)
  child-so_far m j (child_named id) = read_barrier-so_far m j id baton
  child-so_far m j unborn = refl
  child-so_far m j (child_waits id) = refl
  child-so_far m j (child_reads id) = refl
  child-so_far m j child_lost = refl

  main-so_far :
      (m : MainAt)
      → IsInv (at m)
      → mark_main m (so_far m older) ≡ so_far (step_main m (at m)).main older
  unfolding mark_main step_main main_to child_to set_baton rounds
  main-so_far (main_init i) v = elim (dec_lt i 10) [
    | yes lt ↦ let e : ltb i 10 ≡ true = ground arith in rw e refl
    | no ge ↦
        let e : ltb i 10 ≡ false = ground arith in
        let last : i ≡ 10 = omega (arith, v.round) in rw (e, last) refl
  ]
  main-so_far (main_create i) v = refl
  main-so_far (main_arrive i) v = sym (arrives-so_far i barrier (at (main_arrive i)))
  main-so_far (main_waits i) v = refl
  main-so_far (main_measures i) v = refl
  main-so_far main_done v = refl

  unless_done-so_far :
      (m : MainAt) (j : ℕ) → so_far (step_unless_done m j (at m)).main older ≡ so_far m older
  unfolding step_unless_done
  unless_done-so_far (main_init i) j = child-so_far (main_init i) j (c j)
  unless_done-so_far (main_create i) j = child-so_far (main_create i) j (c j)
  unless_done-so_far (main_arrive i) j = child-so_far (main_arrive i) j (c j)
  unless_done-so_far (main_waits i) j = child-so_far (main_waits i) j (c j)
  unless_done-so_far (main_measures i) j = child-so_far (main_measures i) j (c j)
  unless_done-so_far main_done j = refl

step-so_far :
    (m : Move) (s : State) (older : List Mark)
    → IsInv s
    → mark_move m s.main (so_far s.main older) ≡ so_far (step m s).main older
unfolding step mark_move
step-so_far main_runs s older v = main-so_far s.baton s.barrier s.children older s.main v
step-so_far (child_runs j) s older v =
    sym (unless_done-so_far s.baton s.barrier s.children older s.main j)

history-so_far :
    (schedule : List Move) (s : State) (older : List Mark)
    → IsInv s
    → history schedule s (so_far s.main older) ≡ so_far (run schedule s).main older
unfolding history run
history-so_far [] s older v = refl
history-so_far (m ∷ schedule) s older v =
    rw (step-so_far m s older v) (history-so_far schedule (step m s) older (step-Inv m s v))

-- Where an interleaving brings `main` to its end, `main` has left the marks of the ten rounds, in this order.
pub history-rounds :
    (schedule : List Move) (older : List Mark)
    → (run schedule start).main ≡ main_done
    → history schedule start older ≡ rounds 10 older
unfolding rounds
history-rounds schedule older e =
    history-so_far schedule start older start-Inv ∙ ap (λ m. so_far m older) e
