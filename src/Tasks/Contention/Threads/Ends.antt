-- ===== src/Tasks/Contention/Threads/Ends.antt =====
-- Every fair schedule of file_contention.c comes to the end of `main`: nobody waits at a barrier for ever.
use cse.Base.{
  ℕ, zero, suc, ◌+◌, ◌-◌, ◌*◌, ◌≤◌, ◌<◌, ◌≡◌, refl, ◌⊎◌, inl, inr, List, [], ◌∷◌, length, Option,
  true, false, ltb, arith,
}
use native.Mathlib.Decide.{dec_lt, ℕ_discrete}
use cse.Tasks.Fairness.{Has, AllBlocks, concat, moves, Measure, fair-Over}
use cse.Tasks.Contention.Threads.{
  MainAt, main_init, main_create, main_arrive, main_waits, main_measures, main_done, ChildAt,
  unborn, child_starts, child_named, child_waits, child_reads, child_lost, Thread, State, main_to,
  child_to, set_barrier, set_baton, wake_main, wake_child, wake, main_arrives, child_arrives,
  step_main, read_id, read_barrier, step_child, Move, main_runs, child_runs, step_unless_done, step,
  run, start,
}
use cse.Tasks.Contention.Threads.Owns.{
  IsInv, Awaited, settled, started, at, idle, update_self, step-Inv, start-Inv,
}

-- the steps that a thread has still to make up to its loop
abbrev steps_left : ChildAt → ℕ
steps_left child_starts = 2
steps_left (child_named id) = 1
steps_left _ = 0

abbrev rank_at : MainAt → (ℕ → ChildAt) → ℕ
rank_at (main_init i) c = 7 * (10 - i) + 1
rank_at (main_create i) c = 7 * (10 - i)
rank_at (main_arrive i) c = 7 * (10 - i) - 3 + steps_left (c i)
rank_at (main_waits i) c = 7 * (10 - i) - 4 + steps_left (c i)
rank_at (main_measures i) c = 7 * (10 - i) - 5
rank_at main_done c = 0

abbrev rank : State → ℕ
rank s = rank_at s.main s.children

-- A move that changes nothing, or one that lowers the rank.
abbrev Lowers : State → State → Type 0
Lowers s s' = (s' ≡ s) ⊎ (rank s' < rank s)

lt_or_ge : (j i : ℕ) → (j < i) ⊎ (i ≤ j)
lt_or_ge j i = elim (dec_lt j i) [ yes lt ↦ inl lt | no ge ↦ inr (omega arith) ]

three : (j i : ℕ) → (j ≡ i) ⊎ ((j < i) ⊎ (suc i ≤ j))
three j i = elim (ℕ_discrete j i) [
  | yes same ↦ inl same
  | no other ↦ inr (elim (dec_lt j i) [ yes lt ↦ inl lt | no ge ↦ inr (omega arith) ])
]

module _ (baton : Option ℕ) (barrier : Option Thread) (c : ℕ → ChildAt) where
  init_lowers :
      (i : ℕ)
      → i ≤ 10
      → rank (step_main (main_init i) (at baton barrier c (main_init i))) < 7 * (10 - i) + 1
  unfolding step_main main_to set_baton set_barrier
  init_lowers i h = elim (dec_lt i 10) [
    | yes lt ↦ let e : ltb i 10 ≡ true = ground arith in rw e (omega arith)
    | no ge ↦ let e : ltb i 10 ≡ false = ground arith in rw e (omega arith)
  ]

  arrive_lowers :
      (i : ℕ) (x : ChildAt)
      → c i ≡ x
      → IsInv (at baton barrier c (main_arrive i))
      → rank (step_main (main_arrive i) (at baton barrier c (main_arrive i)))
        < rank (at baton barrier c (main_arrive i))
  unfolding step_main main_arrives main_to set_barrier wake wake_child child_to ℕ_discrete
  arrive_lowers i child_starts e v = let r = rw e at v.round in rw (r.2, e) (omega (arith, r.0))
  arrive_lowers i (child_named id) e v =
      let r = rw e at v.round in rw (r.2.0, e) (omega (arith, r.0))
  arrive_lowers i (child_waits id) e v =
      let r = rw e at v.round in rw (r.2.0, e) (omega (arith, r.0))
  arrive_lowers i unborn e v = let r = rw e at v.round in absurd r.2
  arrive_lowers i (child_reads id) e v = let r = rw e at v.round in absurd r.2
  arrive_lowers i child_lost e v = let r = rw e at v.round in absurd r.2

  main-Lowers :
      (m : MainAt)
      → IsInv (at baton barrier c m)
      → Lowers (at baton barrier c m) (step_main m (at baton barrier c m))
  unfolding step_main main_to child_to set_baton ℕ_discrete
  main-Lowers (main_init i) v = inr (init_lowers i v.round)
  main-Lowers (main_create i) v = inr (rw (update_self c i child_starts) (omega (arith, v.round.0)))
  main-Lowers (main_arrive i) v = inr (arrive_lowers i (c i) refl v)
  main-Lowers (main_waits i) v = inl refl
  main-Lowers (main_measures i) v = inr (omega (arith, v.round))
  main-Lowers main_done v = inl refl

  arriving-Lowers :
      (i : ℕ) (x : ChildAt)
      → c i ≡ x
      → IsInv (at baton barrier c (main_arrive i))
      → Lowers
          (at baton barrier c (main_arrive i))
          (step_child i x (at baton barrier c (main_arrive i)))
  unfolding step_child read_id read_barrier child_arrives child_to set_barrier ℕ_discrete
  arriving-Lowers i child_starts e v =
      let r = rw e at v.round in
      inr (rw (r.1, update_self c i (child_named i), e) (omega (arith, r.0)))
  arriving-Lowers i (child_named id) e v =
      let r = rw e at v.round in
      inr (rw (r.1, r.2.0, update_self c i (child_waits id), e) (omega (arith, r.0)))
  arriving-Lowers i (child_waits id) e v = inl refl
  arriving-Lowers i (child_reads id) e v = inl refl
  arriving-Lowers i unborn e v = inl refl
  arriving-Lowers i child_lost e v = inl refl

  barrier_lowers :
      (i : ℕ) (x : ChildAt)
      → c i ≡ x
      → IsInv (at baton barrier c (main_waits i))
      → Awaited i x
      → rank (step_child i x (at baton barrier c (main_waits i)))
        < rank (at baton barrier c (main_waits i))
  unfolding step_child read_id read_barrier child_arrives child_to set_barrier wake wake_main
      main_to ℕ_discrete
  barrier_lowers i child_starts e v a =
      let r = rw e at v.round in rw (r.1, update_self c i (child_named i), e) (omega (arith, r.0))
  barrier_lowers i (child_named id) e v a =
      let r = rw e at v.round in rw (r.1, r.2, e) (omega (arith, r.0))
  barrier_lowers i (child_waits id) e v a = elim a [ ]
  barrier_lowers i (child_reads id) e v a = elim a [ ]
  barrier_lowers i unborn e v a = elim a [ ]
  barrier_lowers i child_lost e v a = elim a [ ]

  -- a thread other than that of the round changes nothing
  other_idle :
      (m : MainAt) (j : ℕ)
      → (j < settled m) ⊎ (started m ≤ j)
      → IsInv (at baton barrier c m)
      → step_child j (c j) (at baton barrier c m) ≡ at baton barrier c m
  other_idle m j (inl lt) v = idle baton barrier c j (at baton barrier c m) (inr (v.old j lt))
  other_idle m j (inr ge) v = idle baton barrier c j (at baton barrier c m) (inl (v.new j ge))

  child-Lowers :
      (m : MainAt) (j : ℕ)
      → IsInv (at baton barrier c m)
      → Lowers (at baton barrier c m) (step_unless_done m j (at baton barrier c m))
  unfolding step_unless_done
  child-Lowers (main_init i) j v = inl (other_idle (main_init i) j (lt_or_ge j i) v)
  child-Lowers (main_create i) j v = inl (other_idle (main_create i) j (lt_or_ge j i) v)
  child-Lowers (main_arrive i) j v = elim (three j i) [
    | inl same ↦ rw same (arriving-Lowers i (c i) refl v)
    | inr other ↦ inl (other_idle (main_arrive i) j other v)
  ]
  child-Lowers (main_waits i) j v = elim (three j i) [
    | inl same ↦ inr (rw same (barrier_lowers i (c i) refl v v.round.3))
    | inr other ↦ inl (other_idle (main_waits i) j other v)
  ]
  child-Lowers (main_measures i) j v = inl (other_idle (main_measures i) j (lt_or_ge j (suc i)) v)
  child-Lowers main_done j v = inl refl

pub step-Lowers : (m : Move) (s : State) → IsInv s → Lowers s (step m s)
unfolding step
step-Lowers main_runs s v = main-Lowers s.baton s.barrier s.children s.main v
step-Lowers (child_runs j) s v = child-Lowers s.baton s.barrier s.children s.main j v

-- In a fair block each of the first `n` threads runs at least once.
abbrev pub EachRuns : (n : ℕ) → List Move → Type 0
EachRuns zero block = Unit {0}
EachRuns (suc n) block = Has (child_runs n) block × EachRuns n block

-- In a fair block `main` and each of the ten threads run at least once.
abbrev pub IsFair : List Move → Type 0
IsFair block = Has main_runs block × EachRuns 10 block

EachRuns-Has : (n i : ℕ) (block : List Move) → i < n → EachRuns n block → Has (child_runs i) block
EachRuns-Has zero i block h each = absurd (omega arith)
EachRuns-Has (suc n) i block h each = elim (ℕ_discrete i n) [
  | yes last ↦ rw last each.0
  | no earlier ↦ EachRuns-Has n i block (omega arith) each.1
]

abbrev IsOver : State → Type 0
IsOver s = s.main ≡ main_done

-- The move that lowers the rank, and why a fair block has it.
abbrev Helps : State → Type 0
Helps s = (m : Move) × (rank (step m s) < rank s) × ((b : List Move) → IsFair b → Has m b)

module _ (baton : Option ℕ) (barrier : Option Thread) (c : ℕ → ChildAt) where
  main-Helps :
      (m : MainAt)
      → rank (step_main m (at baton barrier c m)) < rank_at m c
      → Helps (at baton barrier c m)
  unfolding step
  main-Helps m lt = (main_runs, lt, λ b fair. fair.0)

  at-Helps :
      (m : MainAt)
      → IsInv (at baton barrier c m)
      → IsOver (at baton barrier c m) ⊎ Helps (at baton barrier c m)
  unfolding step step_unless_done step_main main_to child_to set_baton ℕ_discrete
  at-Helps (main_init i) v = inr (main-Helps (main_init i) (init_lowers baton barrier c i v.round))
  at-Helps (main_create i) v =
      inr
        (main-Helps (main_create i) (rw (update_self c i child_starts) (omega (arith, v.round.0))))
  at-Helps (main_arrive i) v =
      inr (main-Helps (main_arrive i) (arrive_lowers baton barrier c i (c i) refl v))
  at-Helps (main_waits i) v = inr (
    child_runs i,
    barrier_lowers baton barrier c i (c i) refl v v.round.3,
    λ b fair. EachRuns-Has 10 i b v.round.0 fair.1,
  )
  at-Helps (main_measures i) v = inr (main-Helps (main_measures i) (omega (arith, v.round)))
  at-Helps main_done v = inl refl

over_stays : (m : Move) (s : State) → IsOver s → step m s ≡ s
unfolding step step_main step_unless_done
over_stays main_runs s e = rw e refl
over_stays (child_runs j) s e = rw e refl

abbrev measure : Measure step IsInv IsOver IsFair
measure = record {
  rank = rank;
  keeps = step-Inv;
  lowers = step-Lowers;
  helps = λ s v. at-Helps s.baton s.barrier s.children s.main v;
  stays = over_stays;
}

run-moves : (schedule : List Move) (s : State) → run schedule s ≡ moves step schedule s
unfolding run moves
run-moves [] s = refl
run-moves (m ∷ schedule) s = run-moves schedule (step m s)

-- Take a schedule that goes through blocks, in each of which `main` and every one of the ten threads runs at
-- least once, in any order and any number of times. If it has more than 71 blocks, `main` of
-- file_contention.c has gone through its ten rounds and returned: nobody waits at a barrier for ever.
pub run_fair-main_done :
    (blocks : List (List Move))
    → AllBlocks IsFair blocks
    → 71 < length blocks
    → (run (concat blocks) start).main ≡ main_done
run_fair-main_done blocks fair enough =
    rw (run-moves (concat blocks) start) (fair-Over measure blocks start start-Inv fair enough)
