-- ===== src/Net/Connect/Accounts.antt =====
-- The loop of `connect_disconnect`: what its totals add up, and that it closes what it opens.
use cse.Base.{
  ℕ, zero, suc, ◌+◌, ◌*◌, ◌%◌, ◌^◌, ◌≡◌, refl, ap, false, String, List, [], ◌∷◌, ◌++◌, length,
  arith,
}
use cse.Base.Int.{pos, is_negative}
use cse.Double.{Double, ◌⊗◌, ◌⊘◌, of_int, decimal}
use cse.Machine.{
  text, double, printf, done, Timespec, Kernel, Trace, log, Call, socket, connect, usleep, close,
  clock_gettime, monotonic_raw, readings, calls, tally, Ends, Ends-for_range, for_range,
}
use cse.Net.Connect.{
  discard_service_port, test_count, Totals, call_time, connect_once, connect_disconnect,
}

-- The sums of the times around `connect` and around `close`, over the readings newest first: four
-- readings make up a round.
unfoldable pub connect_sum : (D : Type 0) ⦃d : Double D⦄ → List Timespec → ℕ
connect_sum D (close_stop ∷ close_start ∷ connect_stop ∷ connect_start ∷ older) =
    call_time D connect_start connect_stop + connect_sum D older
connect_sum D _ = 0

unfoldable pub close_sum : (D : Type 0) ⦃d : Double D⦄ → List Timespec → ℕ
close_sum D (close_stop ∷ close_start ∷ connect_stop ∷ connect_start ∷ older) =
    call_time D close_start close_stop + close_sum D older
close_sum D _ = 0

abbrev pub opened : {D : Type 0} → Call D → ℕ
opened socket = 1
opened _ = 0

abbrev pub closed : {D : Type 0} → Call D → ℕ
closed (close sock) = 1
closed _ = 0

module _ {D : Type 0} (k : Kernel D) (ip : String) where
  -- The trace of one round: `connect` and `close` of the socket that was made, each between its two readings.
  abbrev pub visit : Trace D → Trace D
  visit s =
      let sock = (k s socket).value in
      let s1 = log k s socket in
      let s2 = log k (log k s1 (clock_gettime monotonic_raw)) (connect sock ip 9) in
      let s3 = log k (log k s2 (clock_gettime monotonic_raw)) (usleep 100000) in
      let s4 = log k (log k s3 (clock_gettime monotonic_raw)) (close sock) in
      log k s4 (clock_gettime monotonic_raw)

  -- the trace of `n` rounds
  unfoldable pub visits : (n : ℕ) → Trace D → Trace D
  visits zero t = t
  visits (suc n) t = visit (visits n t)

-- After `n` rounds: the totals are the sums of the times since `t`, as 64-bit numbers, and each
-- socket opened has been closed; the rounds have made no other calls.
pub record Accounts {D : Type 0} ⦃d : Double D⦄ (k : Kernel D) (ip : String) (t : Trace D) (n : ℕ)
    (totals : Totals) (t' : Trace D) : Type 0 where
  pub called : t' ≡ visits k ip n t
  pub new : List Timespec
  pub read : readings t' ≡ new ++ readings t
  pub read_count : length new ≡ 4 * n
  pub connects : totals.connect_time_total ≡ connect_sum D new % 2 ^ 64
  pub closes : totals.close_time_total ≡ close_sum D new % 2 ^ 64
  pub open_count : tally opened (calls t') ≡ n + tally opened (calls t)
  pub close_count : tally closed (calls t') ≡ n + tally closed (calls t)

abbrev pub SocketsAreMade : {D : Type 0} → Kernel D → Type 0
SocketsAreMade {D} k = (s : Trace D) → is_negative (k s socket).value ≡ false

module _ {D : Type 0} ⦃d : Double D⦄ (k : Kernel D) (ip : String) (t : Trace D) where
  connect_once-Accounts :
      SocketsAreMade k
      → (n : ℕ) (totals : Totals) (s : Trace D) → Accounts k ip t n totals s
      → Ends (Accounts k ip t (n + 1)) (connect_once ip totals k s)
  unfolding connect_once readings calls tally connect_sum close_sum visits
  connect_once-Accounts made n totals s a =
      let read_clock : Call D = clock_gettime monotonic_raw in
      let sock = (k s socket).value in
      let s1 = log k s socket in
      let s2 = log k (log k s1 read_clock) (connect sock ip discard_service_port) in
      let s3 = log k (log k s2 read_clock) (usleep 100000) in
      let s4 = log k (log k s3 read_clock) (close sock) in
      let next : n + 1 ≡ suc n = omega arith in
      rw (made s) (
        _,
        _,
        refl,
        record {
          called = rw (next, a.called) refl;
          new =
              (k s4 read_clock).time
              ∷ (k s3 read_clock).time
              ∷ (k s2 read_clock).time
              ∷ (k s1 read_clock).time
              ∷ a.new;
          read =
              ap
                (λ r.
                  (k s4 read_clock).time
                  ∷ (k s3 read_clock).time
                  ∷ (k s2 read_clock).time
                  ∷ (k s1 read_clock).time
                  ∷ r)
                a.read;
          read_count = omega (arith, a.read_count);
          connects = omega (arith, a.connects);
          closes = omega (arith, a.closes);
          open_count = omega (arith, a.open_count);
          close_count = omega (arith, a.close_count);
        },
      )

  connect_loop-Accounts :
      SocketsAreMade k
      → Ends (Accounts k ip t test_count) (
          for_range test_count 0
            (λ _ totals. connect_once ip totals)
            (record { connect_time_total = 0; close_time_total = 0 })
            k
            t)
  unfolding connect_sum close_sum visits
  connect_loop-Accounts made =
      Ends-for_range k (Accounts k ip t) (λ _ totals. connect_once ip totals) test_count
        (λ n totals s _ a. connect_once-Accounts made n totals s a) test_count 0 _ t (omega arith)
        (record {
          called = refl;
          new = [];
          read = refl;
          read_count = refl;
          connects = refl;
          closes = refl;
          open_count = omega arith;
          close_count = omega arith;
        })

  -- one server
  pub connect_disconnect-Accounts :
      SocketsAreMade k
      → (totals : Totals) × (t' : Trace D) × Accounts k ip t test_count totals t'
        × (connect_disconnect ip k t
            ≡ done tt (
                log k t' (
                  printf "%s\tconnect avg %f ms\tclose avg %f ms\n" (
                    text ip
                    ∷ double (
                        of_int (pos totals.connect_time_total)
                        ⊘ (of_int (pos test_count) ⊗ decimal 1000000 0))
                    ∷ double (
                        of_int (pos totals.close_time_total)
                        ⊘ (of_int (pos test_count) ⊗ decimal 1000000 0))
                    ∷ []))))
  unfolding connect_disconnect
  connect_disconnect-Accounts made =
      let (totals, t', run, a) = connect_loop-Accounts made in (totals, t', a, rw run refl)
