-- ===== src/Tasks/Creation/Batches.antt =====
-- The measurements of task_creation.c: thirty batches of a hundred tasks for each line that is printed.
use cse.Base.{
  ℕ, zero, suc, ◌+◌, ◌≡◌, ◌⊎◌, ◌∙◌, refl, ap, inl, inr, List, ◌∷◌, Bool-cases, if◌then◌else◌, arith,
}
use cse.Base.Int.{pos, is_zero}
use cse.Double.{Double}
use cse.Machine.{
  Timespec, Call, pthread_create, fork, vfork, clock_gettime, monotonic_raw, Kernel, Trace, pure,
  log, calls, readings, reading, call, value_of, exit, Ends-for_range, ◌>>=◌,
}
use cse.Tasks.Creation.{
  creation_time, measure_thread_creation, fork_loop, measure_process_creation,
  measure_vprocess_creation,
}
use cse.Tasks.Creation.Children.{Goes, Goes-and_then, Goes-for_range}

-- The calls of the creation of `n` tasks; `create` has the call for each index.
unfoldable pub created :
    {D : Type 0} → (create : ℕ → Call D) → (n : ℕ) → List (Call D) → List (Call D)
created create zero cs = cs
created create (suc n) cs = create n ∷ created create n cs

-- the calls of `n` measurements of a hundred tasks, each between two readings of the clock
unfoldable pub batches :
    {D : Type 0} → (create : ℕ → Call D) → (n : ℕ) → List (Call D) → List (Call D)
batches create zero cs = cs
batches create (suc n) cs =
    clock_gettime monotonic_raw
    ∷ created create 100 (clock_gettime monotonic_raw ∷ batches create n cs)

module _ {D : Type 0} ⦃d : Double D⦄ where
  -- the time of a task of a hundred, from two readings of the clock
  abbrev pub of_hundred : (start stop : Timespec) → D
  of_hundred start stop = creation_time start stop 100

  -- A measurement: two readings of the clock, between them the calls for a hundred tasks.
  abbrev pub OneBatch : (create : ℕ → Call D) → D → Trace D → Trace D → Type 0
  OneBatch create time t t' =
      (start stop : Timespec) × (readings t' ≡ stop ∷ start ∷ readings t)
      × (time ≡ of_hundred start stop)
      × (calls t'
          ≡ clock_gettime monotonic_raw
            ∷ created create 100 (clock_gettime monotonic_raw ∷ calls t))

  module _ (k : Kernel D) where
    -- after the creation of `i` tasks since the trace `t`
    abbrev Made : (create : ℕ → Call D) → ℕ → Trace D → Trace D → Type 0
    Made create i t t' = (readings t' ≡ readings t) × (calls t' ≡ created create i (calls t))

    abbrev tick : Call D
    tick = clock_gettime monotonic_raw

    -- a second reading of the clock behind the calls
    batch-OneBatch :
        (create : ℕ → Call D) (t u : Trace D)
        → Made create 100 (log k t tick) u
        → OneBatch create (of_hundred (k t tick).time (k u tick).time) t (log k u tick)
    unfolding readings calls
    batch-OneBatch create t u h = (
      (k t tick).time,
      (k u tick).time,
      ap (λ l. (k u tick).time ∷ l) h.0,
      refl,
      ap (λ l. tick ∷ l) h.1,
    )

    pub threads-OneBatch :
        (t : Trace D)
        → Goes k
            (λ time t'. OneBatch (λ i. pthread_create i) time t t')
            (measure_thread_creation 100 k t)
    unfolding measure_thread_creation readings calls created
    threads-OneBatch t =
        let s = log k t (clock_gettime monotonic_raw) in
        Goes-and_then k
          (inl (
            Ends-for_range k (λ i _ t'. Made (λ i. pthread_create i) i s t')
              (λ i _. call (pthread_create i)) 100
              (λ i _ u _ h.
                let next : i + 1 ≡ suc i = omega arith in
                rw next (tt, _, refl, (h.0, ap (λ cs. pthread_create i ∷ cs) h.1)))
              100 0 tt s refl (refl, refl)))
          (λ _ u h. inl (_, _, refl, batch-OneBatch (λ i. pthread_create i) t u h))

    fork_loop-Made :
        (fork_call : Call D) (n : ℕ) (t : Trace D)
        → (fork_call ≡ fork) ⊎ (fork_call ≡ vfork)
        → ((time : Timespec) (older : List Timespec) → reading fork_call time older ≡ older)
        → Goes k (λ _ t'. Made (λ _. fork_call) n t t') (fork_loop fork_call n k t)
    unfolding fork_loop readings calls created
    fork_loop-Made fork_call n t which not_clock =
        Goes-for_range k (λ i _ t'. Made (λ _. fork_call) i t t')
          (λ _ _. (do pid ← value_of fork_call; if is_zero pid then exit (pos 0) else pure tt)) n
          (λ i _ u _ h.
            let next : i + 1 ≡ suc i = omega arith in
            elim (Bool-cases (is_zero (k u fork_call).value)) [
              | inl e ↦ rw e (
                  inr (record {
                    fork_call = fork_call;
                    which = which;
                    earlier = u;
                    zero_returned = e;
                    result = refl;
                  }))
              | inr e ↦
                  rw (e, next)
                    (inl (tt, _, refl, (not_clock _ _ ∙ h.0, ap (λ cs. fork_call ∷ cs) h.1)))
            ])
          n 0 tt t (omega arith) (refl, refl)

    pub forks-OneBatch :
        (t : Trace D)
        → Goes k (λ time t'. OneBatch (λ _. fork) time t t') (measure_process_creation 100 k t)
    unfolding measure_process_creation readings calls created
    forks-OneBatch t =
        Goes-and_then k
          (fork_loop-Made fork 100 (log k t (clock_gettime monotonic_raw)) (inl refl)
            (λ time older. refl))
          (λ _ u h. inl (_, _, refl, batch-OneBatch (λ _. fork) t u h))

    pub vforks-OneBatch :
        (t : Trace D)
        → Goes k (λ time t'. OneBatch (λ _. vfork) time t t') (measure_vprocess_creation 100 k t)
    unfolding measure_vprocess_creation readings calls created
    vforks-OneBatch t =
        Goes-and_then k
          (fork_loop-Made vfork 100 (log k t (clock_gettime monotonic_raw)) (inr refl)
            (λ time older. refl))
          (λ _ u h. inl (_, _, refl, batch-OneBatch (λ _. vfork) t u h))
