-- ===== src/Tasks/Switch/Fair.antt =====
-- Fair schedules: both sides end, and how soon.
use cse.Base.{
  ℕ, suc, ◌+◌, ◌*◌, ◌≤◌, ◌<◌, ◌≡◌, refl, sym, ◌⊎◌, inl, inr, List, [], ◌∷◌, length, arith,
}
use native.Mathlib.Decide.{dec_lt}
use cse.Tasks.Fairness.{Has, AllBlocks, concat}
use cse.Tasks.Switch.{
  parent_done, ChildAt, child_init, child_yield, child_done, State, step_parent, step_child,
  interrupt_parent, interrupt_child, Move, parent_runs, child_runs, parent_signal, child_signal,
  step, run, start,
}
use cse.Tasks.Switch.Turns.{Turn, parent_turn, child_turn, finished}
use cse.Tasks.Switch.Alternate.{step-Turn, run-keeps, start-Turn}
use cse.Tasks.Switch.Finish.{with_rounds, run-append}
use cse.Tasks.Switch.Rank.{rank, rank_at, round_rank, helpful, helpful-Runs, Progress}
use cse.Tasks.Switch.Rank.ParentTurn.{step_parent-Progress, wait_child-Progress}
use cse.Tasks.Switch.Rank.Signals.{interrupt_parent-rank, interrupt_child-rank}
use cse.Tasks.Switch.Rank.ChildTurn.{step_child-Progress, wait_parent-Progress}

abbrev pub is_signal : Move → ℕ
is_signal parent_runs = 0
is_signal child_runs = 0
is_signal parent_signal = 1
is_signal child_signal = 1

-- the signals of a schedule
unfoldable pub signals : List Move → ℕ
signals [] = 0
signals (m ∷ schedule) = is_signal m + signals schedule

abbrev pub Done : State → Type 0
Done s = (s.parent ≡ parent_done) × (s.child ≡ child_done)

step-Done : (m : Move) (s : State) → Done s → step m s ≡ s
unfolding step step_parent step_child interrupt_parent interrupt_child
step-Done parent_runs s (p, c) = simp p refl
step-Done child_runs s (p, c) = simp c refl
step-Done parent_signal s (p, c) = simp p refl
step-Done child_signal s (p, c) = simp c refl

run-Done : (schedule : List Move) (s : State) → Done s → Done (run schedule s)
unfolding run
run-Done [] s d = d
run-Done (m ∷ schedule) s d = rw (run, step-Done m s d) (run-Done schedule s d)

step-Progress : (m : Move) (s : State) → is_signal m ≡ 0 → Turn s → Done s ⊎ Progress m s (step m s)
unfolding step
step-Progress parent_runs s n (parent_turn left e f g h) =
    inr (rw (with_rounds s left e f) (step_parent-Progress s.futex left s.parent s.child g h))
step-Progress parent_runs s n (child_turn left e f g h) =
    inr (rw (with_rounds s left e f) (wait_parent-Progress s.futex left s.parent s.child g h))
step-Progress child_runs s n (parent_turn left e f g h) =
    inr (rw (with_rounds s left e f) (wait_child-Progress s.futex left s.parent s.child g h))
step-Progress child_runs s n (child_turn left e f g h) =
    inr (rw (with_rounds s left e f) (step_child-Progress s.futex left s.parent s.child g h))
step-Progress parent_signal s n t = absurd (omega arith)
step-Progress child_signal s n t = absurd (omega arith)
step-Progress m s n (finished e f p c) = inl (p, c)

runs-rank :
    (m : Move) (s : State) → is_signal m ≡ 0 → Turn s → rank (step m s) ≤ rank s + 3 * is_signal m
runs-rank m s n t = elim (step-Progress m s n t) [
  | inl d ↦ rw (step-Done m s d) (omega arith)
  | inr (inl lt) ↦ omega (arith, lt)
  | inr (inr (e, _, _)) ↦ omega (arith, e)
]

step-rank : (m : Move) (s : State) → Turn s → rank (step m s) ≤ rank s + 3 * is_signal m
unfolding step
step-rank parent_signal s (parent_turn left e f _ _) =
    rw (with_rounds s left e f) (interrupt_parent-rank s.futex left s.parent s.child)
step-rank parent_signal s (child_turn left e f _ _) =
    rw (with_rounds s left e f) (interrupt_parent-rank s.futex left s.parent s.child)
step-rank child_signal s (parent_turn left e f _ _) =
    rw (with_rounds s left e f) (interrupt_child-rank s.futex left s.parent s.child)
step-rank child_signal s (child_turn left e f _ _) =
    rw (with_rounds s left e f) (interrupt_child-rank s.futex left s.parent s.child)
step-rank m s (finished e f p c) = rw (step-Done m s (p, c)) (omega arith)
step-rank parent_runs s t = runs-rank parent_runs s refl t
step-rank child_runs s t = runs-rank child_runs s refl t

run-rank :
    (schedule : List Move) (s : State)
    → Turn s
    → rank (run schedule s) ≤ rank s + 3 * signals schedule
unfolding run signals
run-rank [] s t = omega arith
run-rank (m ∷ schedule) s t =
    omega (arith, step-rank m s t, run-rank schedule (step m s) (step-Turn m s t))

-- Without a signal, a schedule with a move of the side that the other waits for takes the round further.
helpful-run :
    (schedule : List Move) (s : State)
    → Turn s
    → signals schedule ≡ 0
    → Has (helpful s) schedule
    → Done (run schedule s) ⊎ (rank (run schedule s) < rank s)
unfolding run signals
helpful-run [] s t n h = elim h [ ]
helpful-run (m ∷ schedule) s t n h =
    let next = step-Turn m s t in
    elim (step-Progress m s (omega arith) t) [
      | inl d ↦ inl (run-Done (m ∷ schedule) s d)
      | inr (inl lt) ↦ inr (omega (arith, lt, run-rank schedule (step m s) next))
      | inr (inr (e, same, other)) ↦ elim h [
        | inl here ↦ absurd (other (sym here))
        | inr there ↦ elim (helpful-run schedule (step m s) next (omega arith) (rw same there)) [
          | inl d ↦ inl d
          | inr lt ↦ inr (omega (arith, lt, e))
        ]
      ]
    ]

-- In a fair block both sides run at least once.
abbrev pub IsFair : List Move → Type 0
IsFair block = Has parent_runs block × Has child_runs block

fair-helpful : (block : List Move) (s : State) → IsFair block → Has (helpful s) block
fair-helpful block s (p, c) = elim (helpful-Runs s) [ inl e ↦ rw e p | inr e ↦ rw e c ]

block-rank :
    (block : List Move) (s : State)
    → Turn s
    → IsFair block
    → Done (run block s) ⊎ (rank (run block s) < rank s + 4 * signals block)
block-rank block s t fair = elim (dec_lt 0 (signals block)) [
  | yes some ↦ inr (omega (arith, some, run-rank block s t))
  | no none_left ↦ elim (helpful-run block s t (omega arith) (fair-helpful block s fair)) [
    | inl d ↦ inl d
    | inr lt ↦ inr (omega (arith, lt))
  ]
]

-- the signals of the blocks
abbrev pub all_signals : List (List Move) → ℕ
all_signals [] = 0
all_signals (b ∷ blocks) = signals b + all_signals blocks

blocks-Done :
    (blocks : List (List Move)) (s : State)
    → Turn s
    → AllBlocks IsFair blocks
    → rank s + 4 * all_signals blocks < length blocks
    → Done (run (concat blocks) s)
unfolding run concat
blocks-Done [] s t fair enough = absurd (omega arith)
blocks-Done (b ∷ blocks) s t (fair, others) enough =
    rw (run-append b (concat blocks) s) (elim (block-rank b s t fair) [
      | inl d ↦ run-Done (concat blocks) (run b s) d
      | inr lt ↦ blocks-Done blocks (run b s) (run-keeps b s t) others (omega (arith, lt, enough))
    ])

start-rank : (child : ChildAt) (word left : ℕ) → rank (start child word (suc left)) ≡ 11 * left + 14
unfolding rank rank_at round_rank start
start-rank child word left = refl

-- Take a schedule that goes through blocks, in each of which both sides run at least once, in any order and
-- any number of times, with signals among their moves. If it has more than 11 * n + 3 blocks and four more
-- for each signal, `n` being the number of rounds, then both sides have ended, whatever the shared word
-- held at first: with a bounded number of signals every fair schedule comes to the end, in a time that is
-- linear in the rounds.
pub run_fair-Done :
    (child : ChildAt) (word left : ℕ) (blocks : List (List Move))
    → (child ≡ child_yield) ⊎ (child ≡ child_init)
    → AllBlocks IsFair blocks
    → 11 * suc left + 3 + 4 * all_signals blocks < length blocks
    → ((run (concat blocks) (start child word (suc left))).parent ≡ parent_done)
      × ((run (concat blocks) (start child word (suc left))).child ≡ child_done)
run_fair-Done child word left blocks begins fair enough =
    blocks-Done blocks (start child word (suc left)) (start-Turn child word left begins) fair
      (omega (arith, start-rank child word left, enough))
