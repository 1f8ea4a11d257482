-- ===== src/Overhead/SystemCall/Whole.antt =====
-- system_call_overhead.c as a whole: what it prints of the system call and of its wrapper.
use cse.Base.{ℕ, suc, ◌+◌, ◌*◌, ◌≡◌, refl, ap, String, List, [], ◌∷◌, ◌++◌, length, arith}
use cse.Base.Int.{pos}
use cse.Double.{Double, ◌⊖◌, of_int}
use cse.Machine.{
  ask, call, print, ◌>>=◌, ◌>>◌, Timespec, int, double, printf, clock_gettime, monotonic_raw,
  sys_gettid, getpid, Call, Kernel, Trace, done, log, calls, copies, readings, reading, Ends,
  Ends-for_range,
}
use cse.Common.{get_time_overhead}
use cse.Common.Setup.{init_test}
use cse.Common.Time.{elapsed}
use cse.Overhead.SystemCall.{
  average_time, average_calls, time_calls, compare_first_to_subsequent_syscalls,
  compare_first_to_subsequent_wrapper_call, print_avg_syscall, print_average_syscall,
  system_call_test, system_call_wrapper_test, main,
}
use cse.Overhead.SystemCall.Average.{average_calls-copies}

-- The calls of `n` rounds, of which `times` are the readings, the newest first: the call between two readings,
-- and a line with the number of the round and the time between them less the overhead.
unfoldable pub compared :
    {D : Type 0} ⦃d : Double D⦄
    → String
    → Call D
    → (n : ℕ) → List Timespec
    → List (Call D)
    → List (Call D)
compared format measured (suc n) (stop ∷ start ∷ older) cs =
    printf format (int (pos n) ∷ double (elapsed start stop ⊖ of_int (pos get_time_overhead)) ∷ [])
    ∷ clock_gettime monotonic_raw
    ∷ measured
    ∷ clock_gettime monotonic_raw
    ∷ compared format measured n older cs
compared format measured _ _ cs = cs

module _ {D : Type 0} ⦃d : Double D⦄ (k : Kernel D) (format : String) (measured : Call D) where
  -- ten calls, each timed
  pub record Compared (t t' : Trace D) : Type 0 where
    pub times : List Timespec
    pub read : readings t' ≡ times ++ readings t
    pub count : length times ≡ 20
    pub called : calls t' ≡ printf "\n" [] ∷ compared format measured 10 times (calls t)

  -- a million calls, timed together
  pub record Averaged (t t' : Trace D) : Type 0 where
    pub after : Trace D
    pub called : calls after ≡ copies 1000000 measured (clock_gettime monotonic_raw ∷ calls t)
    pub printed :
        t'
        ≡ log k (log k after (clock_gettime monotonic_raw)) (
            printf format (
              double (
                average_time
                  (k t (clock_gettime monotonic_raw)).time
                  (k after (clock_gettime monotonic_raw)).time)
              ∷ []))

  average_calls-Averaged :
      (t : Trace D) → Ends (λ _ t'. Averaged t t') (average_calls format measured k t)
  average_calls-Averaged t =
      let (after, run, called) = average_calls-copies k t format measured in
      (tt, _, run, record { after = after; called = called; printed = refl })

  time_calls-Compared :
      ((time : Timespec) (older : List Timespec) → reading measured time older ≡ older)
      → (t : Trace D) → Ends (λ _ t'. Compared t t') (time_calls format measured k t)
  unfolding time_calls readings calls compared
  time_calls-Compared not_clock t =
      let (_, t', run, (times, e, len, c)) =
        Ends-for_range k
          (λ i _ s.
            (times : List Timespec) × (readings s ≡ times ++ readings t)
            × (length times ≡ 2 * i)
            × (calls s ≡ compared format measured i times (calls t)))
          (λ iteration_count _. (do
            start ← ask (clock_gettime monotonic_raw)
            call measured
            stop ← ask (clock_gettime monotonic_raw)
            let latency = elapsed start.time stop.time ⊖ of_int (pos get_time_overhead)
            print format (int (pos iteration_count) ∷ double latency ∷ [])))
          10
          (λ i _ s _ (times, e, len, c).
            let after = log k (log k s (clock_gettime monotonic_raw)) measured in
            let start = (k s (clock_gettime monotonic_raw)).time in
            let stop = (k after (clock_gettime monotonic_raw)).time in
            let next : i + 1 ≡ suc i = omega arith in
            rw next (
              tt,
              _,
              refl,
              (
                stop ∷ start ∷ times,
                rw not_clock (ap (λ l. stop ∷ start ∷ l) e),
                omega (arith, len),
                rw c refl,
              ),
            ))
          10 0 tt t refl ([], refl, refl, refl) in
      rw run (
        tt,
        _,
        refl,
        record { times = times; read = e; count = len; called = ap (λ cs. printf "\n" [] ∷ cs) c },
      )

module _ {D : Type 0} ⦃d : Double D⦄ (k : Kernel D) where
  -- If `init_test` succeeds, system_call_overhead.c returns 0. It has timed first the system call, then its
  -- wrapper: ten calls, each between two readings of the clock and with a line for the time between these less
  -- the overhead, then a million calls between two readings, with the average that these give.
  pub main-Averaged :
      (t t0 : Trace D)
      → init_test k t ≡ done (pos 0) t0
      → (t1 t2 t3 t4 : Trace D) × (main k t ≡ done (pos 0) t4)
        × Compared k "syscall(SYS_gettid) call count %u latency = %f ns\n" sys_gettid t0 t1
        × Averaged k "syscall(SYS_gettid) syscall average latency: %f ns\n\n" sys_gettid t1 t2
        × Compared k "system call wrapper getpid() call count %u latency = %f ns\n" getpid t2 t3
        × Averaged k "getpid syscall wrapper average latency: %f ns\n\n" getpid t3 t4
  unfolding main system_call_test system_call_wrapper_test compare_first_to_subsequent_syscalls
      compare_first_to_subsequent_wrapper_call print_avg_syscall print_average_syscall
  main-Averaged t t0 started =
      let (_, t1, run1, c1) = time_calls-Compared k _ sys_gettid (λ time older. refl) t0 in
      let (_, t2, run2, c2) = average_calls-Averaged k _ sys_gettid t1 in
      let (_, t3, run3, c3) = time_calls-Compared k _ getpid (λ time older. refl) t2 in
      let (_, t4, run4, c4) = average_calls-Averaged k _ getpid t3 in
      (t1, t2, t3, t4, rw (started, run1, run2, run3, run4) refl, c1, c2, c3, c4)
