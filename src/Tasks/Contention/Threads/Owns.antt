-- ===== src/Tasks/Contention/Threads/Owns.antt =====
-- Each thread of file_contention.c reads its own number from the baton, before the next round of `main`; when
-- `main` measures, the threads that it has started all read, whatever the interleaving.
use cse.Base.{
  ℕ, suc, ◌≤◌, ◌<◌, ◌≡◌, refl, ◌⊎◌, inl, inr, List, [], ◌∷◌, Option, none, some, true, false, ltb,
  arith,
}
use native.Mathlib.Decide.{dec_lt, ℕ_discrete}
use cse.Tasks.Contention.Threads.{
  MainAt, main_init, main_create, main_arrive, main_waits, main_measures, main_done, ChildAt,
  unborn, child_starts, child_named, child_waits, child_reads, child_lost, Thread, main_thread,
  child_thread, State, update, main_to, child_to, set_barrier, set_baton, wake_main, wake_child,
  wake, main_arrives, child_arrives, step_main, read_id, read_barrier, step_child, Move, main_runs,
  child_runs, step_unless_done, step, run, start,
}

-- how many threads have passed their barrier, and how many have been started
abbrev pub settled : MainAt → ℕ
settled (main_init i) = i
settled (main_create i) = i
settled (main_arrive i) = i
settled (main_waits i) = i
settled (main_measures i) = suc i
settled main_done = 10

abbrev pub started : MainAt → ℕ
started (main_init i) = i
started (main_create i) = i
started (main_arrive i) = suc i
started (main_waits i) = suc i
started (main_measures i) = suc i
started main_done = 10

-- the thread of the round, while `main` has not come to the barrier, and while it waits there
abbrev pub Arriving : (i : ℕ) → Option Thread → ChildAt → Type 0
Arriving i barrier child_starts = barrier ≡ none
Arriving i barrier (child_named id) = (barrier ≡ none) × (id ≡ i)
Arriving i barrier (child_waits id) = (barrier ≡ some (child_thread i)) × (id ≡ i)
Arriving i barrier _ = ⊥

abbrev pub Awaited : (i : ℕ) → ChildAt → Type 0
Awaited i child_starts = Unit {0}
Awaited i (child_named id) = id ≡ i
Awaited i _ = ⊥

abbrev pub Round : MainAt → Option ℕ → Option Thread → (ℕ → ChildAt) → Type 0
Round (main_init i) baton barrier c = i ≤ 10
Round (main_create i) baton barrier c = (i < 10) × (baton ≡ some i) × (barrier ≡ none)
Round (main_arrive i) baton barrier c = (i < 10) × (baton ≡ some i) × Arriving i barrier (c i)
Round (main_waits i) baton barrier c =
    (i < 10) × (baton ≡ some i) × (barrier ≡ some main_thread) × Awaited i (c i)
Round (main_measures i) baton barrier c = i < 10
Round main_done baton barrier c = Unit {0}

pub record Inv (at : MainAt) (baton : Option ℕ) (barrier : Option Thread) (c : ℕ → ChildAt)
    : Type 0 where
  pub old : (j : ℕ) → j < settled at → c j ≡ child_reads j
  pub new : (j : ℕ) → started at ≤ j → c j ≡ unborn
  pub round : Round at baton barrier c

abbrev pub IsInv : State → Type 0
IsInv s = Inv s.main s.baton s.barrier s.children

pub update_self : (f : ℕ → ChildAt) (i : ℕ) (a : ChildAt) → update f i a i ≡ a
update_self f i a = ground arith

module _ (baton : Option ℕ) (barrier : Option Thread) (c : ℕ → ChildAt) where
  abbrev pub at : MainAt → State
  at m = record { main = m; baton = baton; barrier = barrier; children = c }

  main_init-Inv :
      (i : ℕ) → IsInv (at (main_init i)) → IsInv (step_main (main_init i) (at (main_init i)))
  unfolding step_main main_to set_baton set_barrier
  main_init-Inv i v = elim (dec_lt i 10) [
    | yes lt ↦
        let e : ltb i 10 ≡ true = ground arith in
        rw e (record { old = v.old; new = v.new; round = (lt, refl, refl) })
    | no ge ↦
        let e : ltb i 10 ≡ false = ground arith in
        let last : i ≡ 10 = omega (arith, v.round) in
        rw e (record {
          old = λ j h. v.old j (omega arith);
          new = λ j h. v.new j (omega arith);
          round = tt;
        })
  ]

  main_create-Inv :
      (i : ℕ) → IsInv (at (main_create i)) → IsInv (step_main (main_create i) (at (main_create i)))
  unfolding step_main main_to child_to ℕ_discrete
  main_create-Inv i v = record {
    old = λ j h. ground (arith, v.old j);
    new = λ j h. ground (arith, v.new j);
    round = (v.round.0, v.round.1, rw (update_self c i child_starts) v.round.2);
  }

  main_arrive-Inv :
      (i : ℕ) (x : ChildAt)
      → c i ≡ x
      → IsInv (at (main_arrive i))
      → IsInv (step_main (main_arrive i) (at (main_arrive i)))
  unfolding step_main main_arrives main_to set_barrier wake wake_child child_to ℕ_discrete
  main_arrive-Inv i child_starts e v =
      let r = rw e at v.round in
      rw r.2 (record {
        old = λ j h. v.old j h;
        new = λ j h. v.new j h;
        round = (r.0, r.1, refl, rw e tt);
      })
  main_arrive-Inv i (child_named id) e v =
      let r = rw e at v.round in
      rw r.2.0 (record {
        old = λ j h. v.old j h;
        new = λ j h. v.new j h;
        round = (r.0, r.1, refl, rw e r.2.1);
      })
  main_arrive-Inv i (child_waits id) e v =
      let r = rw e at v.round in
      rw (r.2.0, e)
        (record {
          old = λ j h. ground (arith, v.old j, r.2.1);
          new = λ j h. ground (arith, v.new j);
          round = r.0;
        })
  main_arrive-Inv i unborn e v = let r = rw e at v.round in absurd r.2
  main_arrive-Inv i (child_reads id) e v = let r = rw e at v.round in absurd r.2
  main_arrive-Inv i child_lost e v = let r = rw e at v.round in absurd r.2

  main_measures-Inv :
      (i : ℕ)
      → IsInv (at (main_measures i))
      → IsInv (step_main (main_measures i) (at (main_measures i)))
  unfolding step_main main_to set_baton
  main_measures-Inv i v = record {
    old = λ j h. v.old j h;
    new = λ j h. v.new j h;
    round = omega (arith, v.round);
  }

  pub idle : (j : ℕ) (s : State) → (c j ≡ unborn) ⊎ (c j ≡ child_reads j) → step_child j (c j) s ≡ s
  unfolding step_child
  idle j s (inl e) = rw e refl
  idle j s (inr e) = rw e refl

  arriving-Inv :
      (i : ℕ) (x : ChildAt)
      → c i ≡ x
      → IsInv (at (main_arrive i))
      → IsInv (step_child i x (at (main_arrive i)))
  unfolding step_child read_id read_barrier child_arrives child_to set_barrier ℕ_discrete
  arriving-Inv i child_starts e v =
      let r = rw e at v.round in
      rw r.1 (record {
        old = λ j h. ground (arith, v.old j);
        new = λ j h. ground (arith, v.new j);
        round = (r.0, refl, rw (update_self c i (child_named i)) (r.2, refl));
      })
  arriving-Inv i (child_named id) e v =
      let r = rw e at v.round in
      rw (r.1, r.2.0)
        (record {
          old = λ j h. ground (arith, v.old j);
          new = λ j h. ground (arith, v.new j);
          round = (r.0, refl, rw (update_self c i (child_waits id)) (refl, r.2.1));
        })
  arriving-Inv i (child_waits id) e v = v
  arriving-Inv i (child_reads id) e v = v
  arriving-Inv i unborn e v = v
  arriving-Inv i child_lost e v = v

  awaited-Inv :
      (i : ℕ) (x : ChildAt)
      → c i ≡ x
      → IsInv (at (main_waits i))
      → IsInv (step_child i x (at (main_waits i)))
  unfolding step_child read_id read_barrier child_arrives child_to set_barrier wake wake_main
      main_to ℕ_discrete
  awaited-Inv i child_starts e v =
      let r = rw e at v.round in
      rw r.1 (record {
        old = λ j h. ground (arith, v.old j);
        new = λ j h. ground (arith, v.new j);
        round = (r.0, refl, r.2, rw (update_self c i (child_named i)) refl);
      })
  awaited-Inv i (child_named id) e v =
      let r = rw e at v.round in
      rw (r.1, r.2)
        (record {
          old = λ j h. ground (arith, v.old j, r.3);
          new = λ j h. ground (arith, v.new j);
          round = r.0;
        })
  awaited-Inv i (child_waits id) e v = v
  awaited-Inv i (child_reads id) e v = v
  awaited-Inv i unborn e v = v
  awaited-Inv i child_lost e v = v

  -- where `main` has started as many threads as have passed the barrier, they all are idle
  all_idle :
      (m : MainAt) (j : ℕ)
      → settled m ≡ started m
      → IsInv (at m)
      → IsInv (step_child j (c j) (at m))
  all_idle m j e v = elim (dec_lt j (settled m)) [
    | yes lt ↦ rw (idle j (at m) (inr (v.old j lt))) v
    | no ge ↦ rw (idle j (at m) (inl (v.new j (omega (arith, e))))) v
  ]

  in_round :
      (m : MainAt) (i j : ℕ)
      → settled m ≡ i
      → started m ≡ suc i
      → ((x : ChildAt) → c i ≡ x → IsInv (step_child i x (at m)))
      → IsInv (at m)
      → IsInv (step_child j (c j) (at m))
  in_round m i j e f turn v = elim (ℕ_discrete j i) [
    | yes same ↦ rw same (turn (c i) refl)
    | no other ↦ elim (dec_lt j i) [
      | yes lt ↦ rw (idle j (at m) (inr (v.old j (omega (arith, e))))) v
      | no ge ↦ rw (idle j (at m) (inl (v.new j (omega (arith, f))))) v
    ]
  ]

  child-Inv : (m : MainAt) (j : ℕ) → IsInv (at m) → IsInv (step_unless_done m j (at m))
  unfolding step_unless_done
  child-Inv (main_init i) j v = all_idle (main_init i) j refl v
  child-Inv (main_create i) j v = all_idle (main_create i) j refl v
  child-Inv (main_arrive i) j v =
      in_round (main_arrive i) i j refl refl (λ x e. arriving-Inv i x e v) v
  child-Inv (main_waits i) j v =
      in_round (main_waits i) i j refl refl (λ x e. awaited-Inv i x e v) v
  child-Inv (main_measures i) j v = all_idle (main_measures i) j refl v
  child-Inv main_done j v = v

  main-Inv : (m : MainAt) → IsInv (at m) → IsInv (step_main m (at m))
  unfolding step_main
  main-Inv (main_init i) v = main_init-Inv i v
  main-Inv (main_create i) v = main_create-Inv i v
  main-Inv (main_arrive i) v = main_arrive-Inv i (c i) refl v
  main-Inv (main_waits i) v = v
  main-Inv (main_measures i) v = main_measures-Inv i v
  main-Inv main_done v = v

pub step-Inv : (m : Move) (s : State) → IsInv s → IsInv (step m s)
unfolding step
step-Inv main_runs s v = main-Inv s.baton s.barrier s.children s.main v
step-Inv (child_runs j) s v = child-Inv s.baton s.barrier s.children s.main j v

pub start-Inv : IsInv start
start-Inv = record { old = λ j h. absurd (omega arith); new = λ j h. refl; round = omega arith }

pub run-Inv : (schedule : List Move) (s : State) → IsInv s → IsInv (run schedule s)
unfolding run
run-Inv [] s v = v
run-Inv (m ∷ schedule) s v = run-Inv schedule (step m s) (step-Inv m s v)
