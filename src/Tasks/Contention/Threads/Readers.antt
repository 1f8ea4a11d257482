-- ===== src/Tasks/Contention/Threads/Readers.antt =====
-- What the threads of file_contention.c do while `main` measures, in every interleaving.
use cse.Base.{ℕ, zero, suc, ◌+◌, ◌≤◌, ◌<◌, ◌≡◌, refl, List, Option, arith}
use native.Mathlib.Decide.{dec_lt}
use cse.Tasks.Contention.Threads.{
  Thread, MainAt, main_init, main_create, main_arrive, main_waits, main_measures, main_done,
  ChildAt, unborn, child_starts, child_named, child_waits, child_reads, child_lost, Move, run,
  start,
}
use cse.Tasks.Contention.Threads.Owns.{Inv, Arriving, Awaited, settled, started, start-Inv, run-Inv}

-- The number that thread `j` has is its own, and it has not read a baton that is no more.
abbrev pub Own : (j : ℕ) → ChildAt → Type 0
Own j unborn = Unit {0}
Own j child_starts = Unit {0}
Own j (child_named id) = id ≡ j
Own j (child_waits id) = id ≡ j
Own j (child_reads id) = id ≡ j
Own j child_lost = ⊥

abbrev pub reading : ChildAt → ℕ
reading (child_reads id) = 1
reading _ = 0

-- how many of the first `n` threads are in their loop
unfoldable pub readers : (n : ℕ) → (ℕ → ChildAt) → ℕ
readers zero c = 0
readers (suc n) c = readers n c + reading (c n)

-- While `main` measures for the line of `i + 1` threads, as many of the ten read.
abbrev pub Beside : MainAt → (ℕ → ChildAt) → Type 0
Beside (main_measures i) c = readers 10 c ≡ i + 1
Beside _ c = Unit {0}

module _ (c : ℕ → ChildAt) (m : ℕ) (old : (j : ℕ) → j < m → c j ≡ child_reads j)
    (new : (j : ℕ) → m ≤ j → c j ≡ unborn) where
  readers-old : (n : ℕ) → n ≤ m → readers n c ≡ n
  unfolding readers
  readers-old zero h = refl
  readers-old (suc n) h = rw (old n (omega arith)) (omega (arith, readers-old n (omega arith)))

  readers-all : (n : ℕ) → m ≤ n → readers n c ≡ m
  unfolding readers
  readers-all zero h = omega arith
  readers-all (suc n) h = elim (dec_lt n m) [
    | yes lt ↦ omega (arith, readers-old (suc n) (omega arith))
    | no ge ↦ rw (new n (omega arith)) (omega (arith, readers-all n (omega arith)))
  ]

Arriving-Own : (i : ℕ) (barrier : Option Thread) (x : ChildAt) → Arriving i barrier x → Own i x
Arriving-Own i barrier unborn h = tt
Arriving-Own i barrier child_starts h = tt
Arriving-Own i barrier (child_named id) h = h.1
Arriving-Own i barrier (child_waits id) h = h.1
Arriving-Own i barrier (child_reads id) h = elim h [ ]
Arriving-Own i barrier child_lost h = h

Awaited-Own : (i : ℕ) (x : ChildAt) → Awaited i x → Own i x
Awaited-Own i unborn h = tt
Awaited-Own i child_starts h = tt
Awaited-Own i (child_named id) h = h
Awaited-Own i (child_waits id) h = elim h [ ]
Awaited-Own i (child_reads id) h = elim h [ ]
Awaited-Own i child_lost h = h

module _ (baton : Option ℕ) (barrier : Option Thread) (c : ℕ → ChildAt) (j : ℕ) where
  -- outside the round of thread `i` there is only what is settled and what is not started
  beside_round :
      (m : MainAt) (i : ℕ)
      → Inv m baton barrier c
      → settled m ≡ i
      → started m ≤ suc i
      → (i < started m → Own i (c i))
      → Own j (c j)
  beside_round m i v e f own = elim (dec_lt j (settled m)) [
    | yes lt ↦ rw (v.old j lt) refl
    | no ge ↦ elim (dec_lt j (started m)) [
      | yes now ↦ let same : j ≡ i = omega (arith, e, f) in rw same (own (omega arith))
      | no later ↦ rw (v.new j (omega arith)) tt
    ]
  ]

  Inv-Own : (m : MainAt) → Inv m baton barrier c → Own j (c j)
  Inv-Own (main_init i) v =
      beside_round (main_init i) i v refl (omega arith) (λ h. absurd (omega arith))
  Inv-Own (main_create i) v =
      beside_round (main_create i) i v refl (omega arith) (λ h. absurd (omega arith))
  Inv-Own (main_arrive i) v =
      beside_round (main_arrive i) i v refl (omega arith)
        (λ h. Arriving-Own i barrier (c i) v.round.2)
  Inv-Own (main_waits i) v =
      beside_round (main_waits i) i v refl (omega arith) (λ h. Awaited-Own i (c i) v.round.3)
  Inv-Own (main_measures i) v =
      beside_round (main_measures i) (suc i) v refl (omega arith) (λ h. absurd (omega arith))
  Inv-Own main_done v = beside_round main_done 10 v refl (omega arith) (λ h. absurd (omega arith))

  Inv-Beside : (m : MainAt) → Inv m baton barrier c → Beside m c
  Inv-Beside (main_measures i) v =
      omega (arith, readers-all c (suc i) v.old v.new 10 (omega (arith, v.round)))
  Inv-Beside (main_init i) v = tt
  Inv-Beside (main_create i) v = tt
  Inv-Beside (main_arrive i) v = tt
  Inv-Beside (main_waits i) v = tt
  Inv-Beside main_done v = tt

-- In every interleaving of file_contention.c, a thread that has read its number from the baton has its own,
-- and none has read a baton of a round that is over; and while `main` measures for the line of `i + 1`
-- threads, exactly `i + 1` of the ten are in their loops.
pub run-Own :
    (schedule : List Move) (j : ℕ)
    → Own j ((run schedule start).children j)
      × Beside (run schedule start).main (run schedule start).children
run-Own schedule j =
    let s = run schedule start in
    let v = run-Inv schedule start start-Inv in
    (
      Inv-Own s.baton s.barrier s.children j s.main v,
      Inv-Beside s.baton s.barrier s.children j s.main v,
    )
