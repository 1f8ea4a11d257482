-- ===== src/Common/Setup/Laws.antt =====
-- What `init_test` does on each of its four ways out.
use cse.Base.{ℕ, ◌≡◌, refl, ◌⊎◌, inl, inr, true, false, ◌∷◌, Bool-cases}
use cse.Base.Int.{ℤ, pos, negsuc, is_zero}
use cse.Machine.{
  Call, sched_setaffinity, cpufreq_cpu_exists, cpufreq_get_hardware_limits, cpufreq_set_frequency,
  cpufreq_get_freq_kernel, Run, done, log, Kernel, Trace, Event, Reply,
}
use cse.Common.Setup.{cpu_index, set_process_cpu_and_freq, init_test}

module _ {D : Type 0} (index : ℕ) where
  -- The CPU exists, and its frequency has been set to the largest one that the hardware reported.
  pub record Configured (before after : Trace D) : Type 0 where
    pub bound : Event D
    pub found : Event D
    pub limits : Event D
    pub changed : Event D
    pub current : Event D
    pub shown : Event D
    pub trace : after ≡ shown ∷ current ∷ changed ∷ limits ∷ found ∷ bound ∷ before
    pub bound_call : bound.call ≡ sched_setaffinity index
    pub found_call : found.call ≡ cpufreq_cpu_exists index
    pub limits_call : limits.call ≡ cpufreq_get_hardware_limits index
    pub changed_call : changed.call ≡ cpufreq_set_frequency index limits.reply.cpu_max
    pub current_call : current.call ≡ cpufreq_get_freq_kernel index
    pub found_ok : is_zero found.reply.value ≡ true
    pub limits_ok : is_zero limits.reply.value ≡ true
    pub changed_ok : is_zero changed.reply.value ≡ true

  -- The last call but a message is one of the three that are checked, and it failed.
  pub record Refused (after : Trace D) : Type 0 where
    pub shown : Event D
    pub failed : Event D
    pub earlier : Trace D
    pub frequency : ℕ
    pub trace : after ≡ shown ∷ failed ∷ earlier
    pub which :
        (failed.call ≡ cpufreq_cpu_exists index)
        ⊎ (failed.call ≡ cpufreq_get_hardware_limits index)
        ⊎ (failed.call ≡ cpufreq_set_frequency index frequency)
    pub not_ok : is_zero failed.reply.value ≡ false

  abbrev pub Outcome : Trace D → Run D ℤ → Type 0
  Outcome t r =
      (t' : Trace D) × (((r ≡ done (pos 0) t') × Configured t t')
        ⊎ ((r ≡ done (negsuc 0) t') × Refused t'))

  module _ (k : Kernel D) (t : Trace D) where
    abbrev bound_trace : Trace D
    bound_trace = log k t (sched_setaffinity index)

    abbrev found_trace : Trace D
    found_trace = log k bound_trace (cpufreq_cpu_exists index)

    abbrev limits_reply : Reply
    limits_reply = k found_trace (cpufreq_get_hardware_limits index)

    abbrev limits_trace : Trace D
    limits_trace = log k found_trace (cpufreq_get_hardware_limits index)

    abbrev set_call : Call D
    set_call = cpufreq_set_frequency index limits_reply.cpu_max

    -- `set_process_cpu_and_freq` always returns, with 0 or with -1.
    pub set_process_cpu_and_freq_lem : Outcome t (set_process_cpu_and_freq index k t)
    unfolding set_process_cpu_and_freq
    set_process_cpu_and_freq_lem =
        elim (Bool-cases (is_zero (k bound_trace (cpufreq_cpu_exists index)).value)) [
          | inr e ↦ rw e (
            _,
            inr (
              refl,
              record {
                shown = _;
                failed = _;
                earlier = _;
                frequency = 0;
                trace = refl;
                which = inl refl;
                not_ok = e;
              },
            ),
          )
          | inl e ↦ rw e (elim (Bool-cases (is_zero limits_reply.value)) [
            | inr f ↦ rw f (
              _,
              inr (
                refl,
                record {
                  shown = _;
                  failed = _;
                  earlier = _;
                  frequency = 0;
                  trace = refl;
                  which = inr (inl refl);
                  not_ok = f;
                },
              ),
            )
            | inl f ↦ rw f (elim (Bool-cases (is_zero (k limits_trace set_call).value)) [
              | inr g ↦ rw g (
                _,
                inr (
                  refl,
                  record {
                    shown = _;
                    failed = _;
                    earlier = _;
                    frequency = _;
                    trace = refl;
                    which = inr (inr refl);
                    not_ok = g;
                  },
                ),
              )
              | inl g ↦ rw g (
                _,
                inl (
                  refl,
                  record {
                    bound = _;
                    found = _;
                    limits = _;
                    changed = _;
                    current = _;
                    shown = _;
                    trace = refl;
                    bound_call = refl;
                    found_call = refl;
                    limits_call = refl;
                    changed_call = refl;
                    current_call = refl;
                    found_ok = e;
                    limits_ok = f;
                    changed_ok = g;
                  },
                ),
              )
            ])
          ])
        ]

-- `init_test` always returns. It returns 0 after binding the process to CPU 3 and setting that
-- CPU's frequency to the maximum reported, every checked call having succeeded; otherwise it
-- returns -1, and the last call before its message is a checked one that failed.
pub init_test_lem : {D : Type 0} (k : Kernel D) (t : Trace D) → Outcome cpu_index t (init_test k t)
unfolding init_test
init_test_lem k t = set_process_cpu_and_freq_lem cpu_index k t
