-- ===== src/Tasks/Fairness.antt =====
-- Schedules of a machine whose moves are those of several threads, and why a fair schedule comes to the end.
use cse.Base.{ℕ, ◌≤◌, ◌<◌, ◌≡◌, refl, ◌⊎◌, inl, inr, List, [], ◌∷◌, ◌++◌, length, arith}

abbrev pub Has : {M : Type 0} → M → List M → Type 0
Has m [] = ⊥
Has m (x ∷ xs) = (m ≡ x) ⊎ Has m xs

abbrev pub AllBlocks : {M : Type 0} → (List M → Type 0) → List (List M) → Type 0
AllBlocks P [] = Unit {0}
AllBlocks P (b ∷ blocks) = P b × AllBlocks P blocks

-- the blocks of a schedule, one after the other
unfoldable pub concat : {M : Type 0} → List (List M) → List M
concat [] = []
concat (b ∷ blocks) = b ++ concat blocks

module _ {S M : Type 0} (step : M → S → S) where
  unfoldable pub moves : List M → S → S
  moves [] s = s
  moves (m ∷ schedule) s = moves schedule (step m s)

  pub moves-append : (xs ys : List M) (s : S) → moves (xs ++ ys) s ≡ moves ys (moves xs s)
  unfolding moves
  moves-append [] ys s = refl
  moves-append (m ∷ xs) ys s = moves-append xs ys (step m s)

-- A measure of what is still to do: a move changes nothing or lowers it, and unless all is over some thread
-- lowers it, which every fair block of moves lets run.
pub record Measure {S M : Type 0} (step : M → S → S) (Good Over : S → Type 0)
    (Fair : List M → Type 0) : Type 0 where
  pub rank : S → ℕ
  pub keeps : (m : M) (s : S) → Good s → Good (step m s)
  pub lowers : (m : M) (s : S) → Good s → (step m s ≡ s) ⊎ (rank (step m s) < rank s)
  pub helps :
      (s : S)
      → Good s
      → Over s ⊎ ((m : M) × (rank (step m s) < rank s) × ((b : List M) → Fair b → Has m b))
  pub stays : (m : M) (s : S) → Over s → step m s ≡ s

module _ {S M : Type 0} {step : M → S → S} {Good Over : S → Type 0} {Fair : List M → Type 0}
    (measure : Measure step Good Over Fair) where
  open measure use {rank, keeps, lowers, helps, stays}

  pub moves-Good : (schedule : List M) (s : S) → Good s → Good (moves step schedule s)
  unfolding moves
  moves-Good [] s g = g
  moves-Good (m ∷ schedule) s g = moves-Good schedule (step m s) (keeps m s g)

  moves-Over : (schedule : List M) (s : S) → Over s → Over (moves step schedule s)
  unfolding moves
  moves-Over [] s o = o
  moves-Over (m ∷ schedule) s o = rw (stays m s o) (moves-Over schedule s o)

  moves-rank : (schedule : List M) (s : S) → Good s → rank (moves step schedule s) ≤ rank s
  unfolding moves
  moves-rank [] s g = omega arith
  moves-rank (m ∷ schedule) s g = elim (lowers m s g) [
    | inl same ↦ rw same (moves-rank schedule s g)
    | inr lt ↦ omega (arith, lt, moves-rank schedule (step m s) (keeps m s g))
  ]

  helped :
      (schedule : List M) (s : S) (m : M)
      → Good s
      → rank (step m s) < rank s
      → Has m schedule
      → rank (moves step schedule s) < rank s
  unfolding moves
  helped [] s m g lt h = elim h [ ]
  helped (x ∷ schedule) s m g lt (inl here) =
      rw (← here) (omega (arith, lt, moves-rank schedule (step m s) (keeps m s g)))
  helped (x ∷ schedule) s m g lt (inr there) = elim (lowers x s g) [
    | inl same ↦ rw same (helped schedule s m g lt there)
    | inr less ↦ omega (arith, less, moves-rank schedule (step x s) (keeps x s g))
  ]

  -- A fair schedule with more blocks than the measure comes to the end.
  pub fair-Over :
      (blocks : List (List M)) (s : S)
      → Good s
      → AllBlocks Fair blocks
      → rank s < length blocks
      → Over (moves step (concat blocks) s)
  unfolding concat
  fair-Over [] s g fair enough = absurd (omega arith)
  fair-Over (b ∷ blocks) s g (fair, others) enough =
      rw (moves-append step b (concat blocks) s) (elim (helps s g) [
        | inl over ↦ moves-Over (concat blocks) (moves step b s) (moves-Over b s over)
        | inr (m, lt, has) ↦
            let less = helped b s m g lt (has b fair) in
            fair-Over blocks (moves step b s) (moves-Good b s g) others
              (omega (arith, less, enough))
      ])
