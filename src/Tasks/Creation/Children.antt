-- ===== src/Tasks/Creation/Children.antt =====
-- Runs of task_creation.c that end, or go on in a child, which exits at once.
use cse.Base.{ℕ, zero, suc, ◌+◌, ◌<◌, ◌≡◌, refl, ◌⊎◌, inl, inr, true, arith}
use cse.Base.Int.{pos, is_zero}
use cse.Machine.{Call, fork, vfork, Kernel, Trace, Run, M, exited, log, and_then, for_range, Ends}

module _ {D : Type 0} (k : Kernel D) where
  -- The last call was a `fork` or a `vfork` that returned 0, and the process has exited with status 0.
  pub record IsChild {A : Type 0} (run : Run D A) : Type 0 where
    pub fork_call : Call D
    pub which : (fork_call ≡ fork) ⊎ (fork_call ≡ vfork)
    pub earlier : Trace D
    pub zero_returned : is_zero (k earlier fork_call).value ≡ true
    pub result : run ≡ exited (pos 0) (log k earlier fork_call)

  abbrev pub Goes : {A : Type 0} → (A → Trace D → Type 0) → Run D A → Type 0
  Goes P run = Ends P run ⊎ IsChild run

  IsChild-and_then :
      {A B : Type 0} {run : Run D A} (f : A → Trace D → Run D B)
      → IsChild run
      → IsChild (and_then run f)
  IsChild-and_then f c = record {
    fork_call = c.fork_call;
    which = c.which;
    earlier = c.earlier;
    zero_returned = c.zero_returned;
    result = rw c.result refl;
  }

  pub Goes-and_then :
      {A B : Type 0} {P : A → Trace D → Type 0} {Q : B → Trace D → Type 0} {run : Run D A}
      {f : A → Trace D → Run D B}
      → Goes P run
      → ((a : A) (t : Trace D) → P a t → Goes Q (f a t))
      → Goes Q (and_then run f)
  Goes-and_then {f} (inl (a, t, e, p)) next = rw e (next a t p)
  Goes-and_then {f} (inr c) next = inr (IsChild-and_then f c)

  module _ {S : Type 0} (I : ℕ → S → Trace D → Type 0) (body : ℕ → S → M D S) (last : ℕ) where
    -- The rule for a counted loop: the body takes the invariant one index further, or ends in a child.
    pub Goes-for_range :
        ((i : ℕ) (s : S) (t : Trace D) → i < last → I i s t → Goes (I (i + 1)) (body i s k t))
        → (n first : ℕ) (s : S) (t : Trace D) → first + n ≡ last
        → I first s t
        → Goes (I last) (for_range n first body s k t)
    unfolding for_range
    Goes-for_range keep zero first s t e h =
        let same : first ≡ last = omega arith in inl (s, t, refl, rw (← same) h)
    Goes-for_range keep (suc n) first s t e h =
        Goes-and_then (keep first s t (omega arith) h)
          (λ s' t' h'. Goes-for_range keep n (first + 1) s' t' (omega arith) h')
