-- ===== src/Net/RoundTrip/Rounds.antt =====
-- The calls of `tcp_ping` over a good connection, one by one, and the lines that it prints.
use cse.Base.{ℕ, zero, suc, ◌+◌, ◌*◌, ◌%◌, ◌^◌, ◌≤◌, ◌<◌, ◌≡◌, refl, String, [], ◌∷◌, arith}
use cse.Base.Int.{ℤ, pos}
use cse.Double.{Double, ◌⊖◌, ◌⊗◌, ◌⊘◌, of_int, decimal, to_ullong}
use cse.Machine.{
  Call, Timespec, text, int, double, printf, socket, connect, close, send, recv, clock_gettime,
  monotonic_raw, Kernel, Trace, log, calls, copies, Ends, Ends-and_then, Ends-for_range, for_range,
}
use cse.Common.{get_time_overhead, syscall_overhead}
use cse.Common.Time.{elapsed}
use cse.Net.RoundTrip.{
  echo_service_port, start_payload_size, payload_iteration, receive_loop, warm_up, round_trip,
  ping_size, tcp_ping,
}
use cse.Net.RoundTrip.Receive.{received, receive_loop-Received}
use cse.Net.RoundTrip.Ping.{IsEcho}

-- the time of one round trip, from two readings of the clock
abbrev pub trip_time : (D : Type 0) ⦃d : Double D⦄ → (start stop : Timespec) → ℕ
trip_time D start stop = to_ullong (
    elapsed {D = D} start stop ⊖ of_int (pos get_time_overhead) ⊖ syscall_overhead ⊗ of_int (pos 2))

-- the line for one size
abbrev pub size_line : {D : Type 0} ⦃d : Double D⦄ → (ip : String) → (size total : ℕ) → Call D
size_line ip size total = printf "%s\tsend_size = %u in %f ms\n" (
    text ip
    ∷ int (pos size)
    ∷ double (of_int (pos total) ⊘ decimal 1000000 0 ⊘ of_int (pos 50))
    ∷ [])

module _ {D : Type 0} ⦃d : Double D⦄ (k : Kernel D) where
  -- The answer to a message of `size` bytes has come, in parts, of each of which there is a byte at least.
  abbrev pub Answered : (sock : ℤ) → (size : ℕ) → Trace D → Trace D → Type 0
  Answered sock size t t' =
      (parts bytes : ℕ) × (size ≤ bytes)
      × (bytes < 2 * size)
      × (parts ≤ bytes)
      × (received t' ≡ bytes + received t)
      × (calls t' ≡ copies parts (recv sock size) (calls t))

  -- One message has gone and come back between two readings of the clock, and its time is in the total.
  pub record Trip (sock : ℤ) (size total : ℕ) (t : Trace D) (total' : ℕ) (t' : Trace D)
      : Type 0 where
    pub after : Trace D
    pub answered :
        Answered sock size (log k (log k t (clock_gettime monotonic_raw)) (send sock size)) after
    pub finished : t' ≡ log k after (clock_gettime monotonic_raw)
    pub sum :
        total'
        ≡ (total
            + trip_time D
                (k t (clock_gettime monotonic_raw)).time
                (k after (clock_gettime monotonic_raw)).time)
          % 2 ^ 64

  -- `n` round trips, whose times give the total
  abbrev pub Trips : (sock : ℤ) → (size n : ℕ) → Trace D → ℕ → Trace D → Type 0
  Trips sock size zero t total t' = (total ≡ 0) × (t' ≡ t)
  Trips sock size (suc n) t total t' =
      (earlier : ℕ) × (u : Trace D) × Trips sock size n t earlier u
      × Trip sock size earlier u total t'

  -- the first `i` sizes: fifty round trips for each, and a line
  abbrev pub Sizes : (ip : String) → (sock : ℤ) → (i : ℕ) → Trace D → Trace D → Type 0
  Sizes ip sock zero t t' = t' ≡ t
  Sizes ip sock (suc i) t t' =
      (total : ℕ) × (before after : Trace D) × Sizes ip sock i t before
      × Trips sock (100 + i * 100) 50 before total after
      × (t' ≡ log k after (size_line ip (100 + i * 100) total))

  -- One server: it is connected to, a first message goes and comes back untimed, then those of the ten sizes.
  pub record Pinged (ip : String) (t t' : Trace D) : Type 0 where
    pub sock : ℤ
    pub connected : Trace D
    pub warm : Trace D
    pub last : Trace D
    pub made : sock ≡ (k t socket).value
    pub opened : connected ≡ log k (log k t socket) (connect sock ip 7)
    pub warmed : Answered sock 100 (log k connected (send sock 100)) warm
    pub sizes : Sizes ip sock 10 warm last
    pub closed : t' ≡ log k last (close sock)

  module _ (echo : IsEcho k) (fuel : ℕ) (enough : 1000 < fuel) where
    receive-Answered :
        (sock : ℤ) (size : ℕ) (t : Trace D)
        → 0 < size
        → size < 1001
        → Ends (λ _ t'. Answered sock size t t') (receive_loop fuel sock size (pos 0) k t)
    receive-Answered sock size t some_bytes small =
        let r =
          receive_loop-Received k sock size fuel 0 t (echo.echoes sock size some_bytes)
            (omega arith) (omega arith) (omega arith) in
        (
          pos r.count,
          r.final,
          r.result,
          (
            r.rounds,
            r.count,
            r.enough,
            r.bounded,
            omega (arith, r.few),
            omega (arith, r.bytes),
            r.called,
          ),
        )

    round_trip-Trip :
        (sock : ℤ) (size total : ℕ) (t : Trace D)
        → 0 < size
        → size < 1001
        → Ends (λ total' t'. Trip sock size total t total' t') (round_trip fuel sock size total k t)
    unfolding round_trip
    round_trip-Trip sock size total t some_bytes small =
        Ends-and_then
          (receive-Answered sock size
            (log k (log k t (clock_gettime monotonic_raw)) (send sock size)) some_bytes small)
          (λ _ after answered. (
            _,
            _,
            refl,
            record { after = after; answered = answered; finished = refl; sum = refl },
          ))

    ping_size-Trips :
        (ip : String) (sock : ℤ) (size : ℕ) (t : Trace D)
        → 0 < size
        → size < 1001
        → Ends
            (λ _ t'.
              (total : ℕ) × (after : Trace D) × Trips sock size 50 t total after
              × (t' ≡ log k after (size_line ip size total)))
            (ping_size fuel ip sock size k t)
    unfolding ping_size
    ping_size-Trips ip sock size t some_bytes small =
        Ends-and_then
          (Ends-for_range k (λ i total t'. Trips sock size i t total t')
            (λ _ total. round_trip fuel sock size total) 50
            (λ i total u lt trips.
              let (total', u', run, trip) = round_trip-Trip sock size total u some_bytes small in
              let next : i + 1 ≡ suc i = omega arith in
              rw next (total', u', run, (total, u, trips, trip)))
            50 0 0 t refl (refl, refl))
          (λ total after trips. (tt, _, refl, (total, after, trips, refl)))

    for_range-Sizes :
        (ip : String) (sock : ℤ) (t : Trace D)
        → Ends
            (λ _ t'. Sizes ip sock 10 t t')
            (for_range 10 0
              (λ i _. ping_size fuel ip sock (start_payload_size + i * payload_iteration))
              tt
              k
              t)
    for_range-Sizes ip sock t =
        Ends-for_range k (λ i _ t'. Sizes ip sock i t t')
          (λ i _. ping_size fuel ip sock (start_payload_size + i * payload_iteration)) 10
          (λ i _ u lt sizes.
            let (_, u', run, (total, after, trips, e)) =
              ping_size-Trips ip sock (100 + i * 100) u (omega arith) (omega arith) in
            let next : i + 1 ≡ suc i = omega arith in
            rw next (tt, u', run, (total, u, after, sizes, trips, e)))
          10 0 tt t refl refl

    pub tcp_ping-Pinged :
        (ip : String) (t : Trace D) → Ends (λ _ t'. Pinged ip t t') (tcp_ping fuel ip k t)
    unfolding tcp_ping warm_up
    tcp_ping-Pinged ip t =
        let sock = (k t socket).value in
        let connected = log k (log k t socket) (connect sock ip echo_service_port) in
        let (_, warm, run, warmed) =
          receive-Answered sock 100 (log k connected (send sock 100)) (omega arith) (omega arith) in
        let (_, last, run', sizes) = for_range-Sizes ip sock warm in
        rw (echo.sock_ok t, echo.connect_ok (log k t socket) sock ip, run, run')
          (
            tt,
            _,
            refl,
            record {
              sock = sock;
              connected = connected;
              warm = warm;
              last = last;
              made = refl;
              opened = refl;
              warmed = warmed;
              sizes = sizes;
              closed = refl;
            },
          )
