-- ===== src/Tasks/Creation/Whole.antt =====
-- task_creation.c as a whole: the lines of the process that it starts with, and the end of its children.
use cse.Base.{ℕ, ◌≡◌, String, List, [], ◌∷◌}
use cse.Base.Int.{ℤ, pos}
use cse.Double.{Double}
use cse.Machine.{Call, pthread_create, fork, vfork, Kernel, Trace}
use cse.Common.Stats.{Qsort}
use cse.Tasks.Creation.Lines.{Line}

-- what a line measures, the number that it prints, and its name
pub record Entry (D : Type 0) : Type 0 where
  pub create : ℕ → Call D
  pub num : ℕ
  pub name : String

abbrev entry : {D : Type 0} → (ℕ → Call D) → ℕ → String → Entry D
entry create num name = record { create = create; num = num; name = name }

module _ {D : Type 0} where
  -- the seven lines of the program
  abbrev pub entries : List (Entry D)
  entries =
      entry (λ i. pthread_create i) 10 "threads"
      ∷ entry (λ i. pthread_create i) 100 "threads"
      ∷ entry (λ i. pthread_create i) 1000 "threads"
      ∷ entry (λ i. pthread_create i) 10000 "threads"
      ∷ entry (λ i. pthread_create i) 100000 "threads"
      ∷ entry (λ _. fork) 100 "processes (fork)"
      ∷ entry (λ _. vfork) 100 "processes (vfork)"
      ∷ []

module _ {D : Type 0} ⦃d : Double D⦄ where
  -- the lines of the list, one after the other, and nothing else
  abbrev pub AllLines : Qsort ℤ → List (Entry D) → Trace D → Trace D → Type 0
  AllLines qsort [] t t' = t' ≡ t
  AllLines qsort (e ∷ es) t t' =
      (u : Trace D) × Line qsort e.create e.num e.name t u × AllLines qsort es u t'

  module _ (k : Kernel D) (qsort : Qsort ℤ) where
    abbrev Printed : List (Entry D) → Trace D → ℤ → Trace D → Type 0
    Printed es t status t' = (status ≡ pos 0) × AllLines qsort es t t'
