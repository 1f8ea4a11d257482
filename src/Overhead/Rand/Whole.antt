-- ===== src/Overhead/Rand/Whole.antt =====
-- rand.c as a whole: its calls, and the number that it prints.
use cse.Base.{ℕ, suc, ◌*◌, ◌/◌, ◌≤◌, ◌<◌, ◌≡◌, refl, ◌⊎◌, inl, inr, [], ◌∷◌, arith}
use cse.Base.Int.{pos, negsuc}
use cse.Double.{Double, ◌⊖◌, ◌⊗◌, of_int, to_ullong}
use cse.Machine.{
  Timespec, double, clock_gettime, monotonic_raw, rand, srand, time, printf, exit_failure, Kernel,
  Trace, done, exited, log, calls, copies, repeat-call,
}
use cse.Common.{get_time_overhead, for_loop_overhead}
use cse.Common.Setup.{init_test}
use cse.Common.Setup.Laws.{init_test_lem}
use cse.Common.Time.{elapsed}
use cse.Overhead.Rand.{measure, main}

-- the time between two readings, less the overheads
abbrev pub total_time : (D : Type 0) ⦃d : Double D⦄ → (start end : Timespec) → ℕ
total_time D start end = to_ullong (
    elapsed {D = D} start end
    ⊖ of_int (pos get_time_overhead)
    ⊖ for_loop_overhead ⊗ of_int (pos 100000))

module _ {D : Type 0} ⦃d : Double D⦄ (k : Kernel D) where
  -- The program has drawn a hundred thousand numbers between two readings of the clock, behind the call that
  -- sets the seed; `latency` is the time of a draw in whole nanoseconds, rounded down.
  pub record Drawn (t t' : Trace D) : Type 0 where
    pub before : Trace D
    pub after : Trace D
    pub total : ℕ
    pub latency : ℕ
    pub seeded : before ≡ log k (log k t time) (srand (k t time).value)
    pub drawn : calls after ≡ copies 100000 rand (clock_gettime monotonic_raw ∷ calls before)
    pub timed :
        total
        ≡ total_time D
            (k before (clock_gettime monotonic_raw)).time
            (k after (clock_gettime monotonic_raw)).time
    pub at_least : 100000 * latency ≤ total
    pub less_than : total < 100000 * suc latency
    pub printed :
        t'
        ≡ log k
            (log k after (clock_gettime monotonic_raw))
            (printf "Overhead for calling rand(): %f\n" (double (of_int (pos latency)) ∷ []))

  measure-Drawn : (t : Trace D) → (t' : Trace D) × (measure k t ≡ done (pos 0) t') × Drawn t t'
  unfolding measure calls
  measure-Drawn t =
      let before = log k (log k t time) (srand (k t time).value) in
      let (after, run, drawn) =
        repeat-call k rand 100000 (log k before (clock_gettime monotonic_raw)) in
      let total =
        total_time D (k before (clock_gettime monotonic_raw)).time
          (k after (clock_gettime monotonic_raw)).time in
      let line =
        printf "Overhead for calling rand(): %f\n" (double (of_int (pos (total / 100000))) ∷ []) in
      (
        log k (log k after (clock_gettime monotonic_raw)) line,
        rw run refl,
        record {
          before = before;
          after = after;
          total = total;
          latency = total / 100000;
          seeded = refl;
          drawn = drawn;
          timed = refl;
          at_least = omega arith;
          less_than = omega arith;
          printed = refl;
        },
      )

  -- Whatever the kernel answers, rand.c ends: it exits with EXIT_FAILURE behind a message if `init_test` fails;
  -- else it returns 0 after a hundred thousand draws between two readings of the clock, and prints the time
  -- between these, less the overheads, for one draw: a whole number of nanoseconds, rounded down.
  pub main-Drawn :
      (t : Trace D)
      → (t0 t' : Trace D) × (((init_test k t ≡ done (negsuc 0) t0)
            × (main k t ≡ exited exit_failure (log k t0 (printf "FAILURE init_test" []))))
          ⊎ ((init_test k t ≡ done (pos 0) t0) × (main k t ≡ done (pos 0) t') × Drawn t0 t'))
  unfolding main
  main-Drawn t =
      let (t0, started) = init_test_lem k t in
      elim started [
        | inl (e, _) ↦
            let (t', run, drawn) = measure-Drawn t0 in rw (e, run) (t0, t', inr (refl, refl, drawn))
        | inr (e, _) ↦ rw e (t0, t0, inl (refl, refl))
      ]
