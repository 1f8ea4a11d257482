-- ===== src/Net/RoundTrip/Ping.antt =====
-- `tcp_ping` as a whole: what it sends over a good connection, and that it sends nothing without one.
use cse.Base.{
  ℕ, ◌+◌, ◌*◌, ◌<◌, ◌≡◌, refl, ap, true, false, ◌⊎◌, inl, inr, Bool-cases, String, arith, List,
}
use cse.Base.Int.{ℤ, pos, is_negative}
use cse.Double.{Double}
use cse.Machine.{
  Call, socket, connect, close, exit_failure, send, recv, clock_gettime, monotonic_raw, Kernel,
  Trace, exited, log, calls, Ends, Ends-and_then, Ends-for_range, tally, tally-copies, for_range,
}
use cse.Net.{print_errno}
use cse.Net.RoundTrip.{
  echo_service_port, start_payload_size, payload_iteration, receive_loop, warm_up, round_trip,
  ping_size, tcp_ping,
}
use cse.Net.RoundTrip.Receive.{Delivers, receive_loop-Received}

-- the messages sent, and their bytes
abbrev pub messages : {D : Type 0} → Call D → ℕ
messages (send sock size) = 1
messages _ = 0

abbrev pub bytes : {D : Type 0} → Call D → ℕ
bytes (send sock size) = size
bytes _ = 0

-- The trace has `m` messages and `b` bytes more than the calls `cs`.
pub record Sent {D : Type 0} (cs : List (Call D)) (m b : ℕ) (t : Trace D) : Type 0 where
  pub message_count : tally messages (calls t) ≡ m + tally messages cs
  pub byte_count : tally bytes (calls t) ≡ b + tally bytes cs

-- The server accepts the connection and echoes every message.
pub record IsEcho {D : Type 0} (k : Kernel D) : Type 0 where
  pub sock_ok : (t : Trace D) → is_negative (k t socket).value ≡ false
  pub connect_ok :
      (t : Trace D) (sock : ℤ) (ip : String)
      → is_negative (k t (connect sock ip echo_service_port)).value ≡ false
  pub echoes : (sock : ℤ) (size : ℕ) → 0 < size → Delivers k sock size

module _ {D : Type 0} where
  Sent-cast :
      {cs : List (Call D)} {m b : ℕ} {t : Trace D} (m' b' : ℕ)
      → Sent cs m b t
      → m ≡ m'
      → b ≡ b'
      → Sent cs m' b' t
  Sent-cast m' b' sent e f = omega arith

module _ {D : Type 0} ⦃d : Double D⦄ (k : Kernel D) (echo : IsEcho k) (cs : List (Call D))
    (fuel : ℕ) (enough : 1000 < fuel) where
  receive_Sent :
      (sock : ℤ) (size m b : ℕ) (t : Trace D)
      → 0 < size
      → size < 1001
      → Sent cs m b t
      → Ends (λ _ t'. Sent cs m b t') (receive_loop fuel sock size (pos 0) k t)
  unfolding tally calls
  receive_Sent sock size m b t some_bytes small sent =
      let r =
        receive_loop-Received k sock size fuel 0 t (echo.echoes sock size some_bytes) (omega arith)
          (omega arith) (omega arith) in
      (
        pos r.count,
        r.final,
        r.result,
        omega (
          arith,
          ap (tally messages) r.called,
          ap (tally bytes) r.called,
          tally-copies messages r.rounds (recv sock size) (calls t),
          tally-copies bytes r.rounds (recv sock size) (calls t),
        ),
      )

  round_trip-Sent :
      (sock : ℤ) (size total m b : ℕ) (t : Trace D)
      → 0 < size
      → size < 1001
      → Sent cs m b t
      → Ends (λ _ t'. Sent cs (m + 1) (b + size) t') (round_trip fuel sock size total k t)
  unfolding round_trip tally calls
  round_trip-Sent sock size total m b t some_bytes small sent =
      Ends-and_then
        (receive_Sent sock size (m + 1) (b + size)
          (log k (log k t (clock_gettime monotonic_raw)) (send sock size)) some_bytes small
          (omega arith))
        λ a t' sent'. (_, _, refl, omega arith)

  ping_size-Sent :
      (ip : String) (sock : ℤ) (size m b : ℕ) (t : Trace D)
      → 0 < size
      → size < 1001
      → Sent cs m b t
      → Ends (λ _ t'. Sent cs (m + 50) (b + 50 * size) t') (ping_size fuel ip sock size k t)
  unfolding ping_size tally calls
  ping_size-Sent ip sock size m b t some_bytes small sent =
      Ends-and_then
        (Ends-for_range k (λ i _ t'. Sent cs (m + i) (b + i * size) t')
          (λ _ total. round_trip fuel sock size total) 50
          (λ i total t' lt sent'.
            let (a, s, e, p) =
              round_trip-Sent sock size total (m + i) (b + i * size) t' some_bytes small sent' in
            (a, s, e, Sent-cast _ _ p (omega arith) (omega arith)))
          50 0 0 t (omega arith) (Sent-cast _ _ sent (omega arith) (omega arith)))
        λ total t' sent'. (_, _, refl, omega arith)

  sizes_Sent :
      (ip : String) (sock : ℤ) (m b : ℕ) (t : Trace D)
      → Sent cs m b t
      → Ends
          (λ _ t'. Sent cs (m + 500) (b + 275000) t')
          (for_range 10 0
            (λ i _. ping_size fuel ip sock (start_payload_size + i * payload_iteration))
            tt
            k
            t)
  sizes_Sent ip sock m b t sent =
      let (a, s, e, p) =
        Ends-for_range k (λ i _ t'. Sent cs (m + 50 * i) (b + 2500 * i + 2500 * (i * i)) t')
          (λ i _. ping_size fuel ip sock (start_payload_size + i * payload_iteration)) 10
          (λ i _ t' lt sent'.
            let (a, s, e, p) =
              ping_size-Sent ip sock (start_payload_size + i * payload_iteration) (m + 50 * i)
                (b + 2500 * i + 2500 * (i * i)) t' (omega arith) (omega arith) sent' in
            (a, s, e, Sent-cast _ _ p (omega arith) (omega arith)))
          10 0 tt t (omega arith) (Sent-cast _ _ sent (omega arith) (omega arith)) in
      (a, s, e, Sent-cast _ _ p (omega arith) (omega arith))

  warm_up-Sent :
      (sock : ℤ) (m b : ℕ) (t : Trace D)
      → Sent cs m b t
      → Ends (λ _ t'. Sent cs (m + 1) (b + 100) t') (warm_up fuel sock k t)
  unfolding warm_up tally calls
  warm_up-Sent sock m b t sent =
      Ends-and_then
        (receive_Sent sock 100 (m + 1) (b + 100) (log k t (send sock start_payload_size))
          (omega arith) (omega arith) (omega arith))
        λ a t' sent'. (tt, t', refl, sent')

  -- one server: the warm-up, and 50 messages of each of the ten sizes
  pub tcp_ping-Sent :
      (ip : String) (t : Trace D)
      → calls t ≡ cs
      → Ends (λ _ t'. Sent cs 501 275100 t') (tcp_ping fuel ip k t)
  unfolding tcp_ping warm_up tally calls
  tcp_ping-Sent ip t e =
      rw (echo.sock_ok t, echo.connect_ok (log k t socket) _ ip)
        (let start = log k (log k t socket) (connect (k t socket).value ip echo_service_port) in
          let none_sent : Sent cs 0 0 start =
            omega (arith, ap (tally messages) e, ap (tally bytes) e) in
          Ends-and_then (warm_up-Sent (k t socket).value 0 0 start none_sent) λ _ t' warm.
            Ends-and_then (sizes_Sent ip (k t socket).value 1 100 t' (Sent-cast _ _ warm refl refl))
              λ _ t'' sent. (tt, _, refl, Sent-cast _ _ (omega arith) refl refl))

-- Without a socket or without a connection `tcp_ping` closes the socket and exits with status 1, and
-- has sent nothing.
pub tcp_ping-refused :
    {D : Type 0} ⦃d : Double D⦄ (k : Kernel D) (fuel : ℕ) (ip : String) (t : Trace D)
    → ((is_negative (k t socket).value ≡ true)
        ⊎ (is_negative (k (log k t socket) (connect (k t socket).value ip echo_service_port)).value
            ≡ true))
    → (t' : Trace D) × (tcp_ping fuel ip k t
        ≡ exited exit_failure (log k t' (close (k t socket).value)))
      × (tally messages (calls t') ≡ tally messages (calls t))
unfolding tcp_ping print_errno tally calls
tcp_ping-refused k fuel ip t (inl e) = rw e (_, refl, omega arith)
tcp_ping-refused k fuel ip t (inr e) = elim (Bool-cases (is_negative (k t socket).value)) [
  | inl f ↦ rw f (_, refl, omega arith)
  | inr f ↦ rw (f, e) (_, refl, omega arith)
]
