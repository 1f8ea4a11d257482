-- ===== src/Net/RoundTrip/Whole.antt =====
-- network_round_trip.c as a whole, over good connections: what it sends to both servers and what it prints.
use cse.Base.{ℕ, ◌<◌, ◌≡◌, refl, arith}
use cse.Base.Int.{pos}
use cse.Double.{Double}
use cse.Machine.{Kernel, Trace, done, calls, Ends-both}
use cse.Common.Setup.{init_test}
use cse.Net.RoundTrip.{main}
use cse.Net.RoundTrip.Ping.{Sent, IsEcho, tcp_ping-Sent}
use cse.Net.RoundTrip.Rounds.{Pinged, tcp_ping-Pinged}

-- If `init_test` succeeds and both servers accept the connection and echo every message, with fuel above
-- 1000 network_round_trip.c ends with status 0. One server after the other has been connected to, warmed up
-- with a first message, and sent fifty messages of each of the ten sizes, each answered by as many bytes at
-- least as it has, between two readings of the clock; the line for a size has the sum of the fifty times that
-- these give, and there are no other calls. That is 1002 messages of 550200 bytes in all.
pub main-Pinged :
    {D : Type 0} ⦃d : Double D⦄ (k : Kernel D) (fuel : ℕ) (t t0 : Trace D)
    → IsEcho k
    → 1000 < fuel
    → init_test k t ≡ done (pos 0) t0
    → (t1 t2 : Trace D) × (main fuel k t ≡ done (pos 0) t2)
      × Pinged k "127.0.0.1" t0 t1
      × Pinged k "169.254.5.251" t1 t2
      × Sent (calls t0) 1002 550200 t2
unfolding main
main-Pinged k fuel t t0 echo enough started =
    let (_, t1, run1, (sent1, near)) =
      Ends-both (tcp_ping-Sent k echo (calls t0) fuel enough "127.0.0.1" t0 refl)
        (tcp_ping-Pinged k echo fuel enough "127.0.0.1" t0) in
    let (_, t2, run2, (sent2, far)) =
      Ends-both (tcp_ping-Sent k echo (calls t1) fuel enough "169.254.5.251" t1 refl)
        (tcp_ping-Pinged k echo fuel enough "169.254.5.251" t1) in
    (
      t1,
      t2,
      rw (started, run1, run2) refl,
      near,
      far,
      record {
        message_count = omega (arith, sent1.message_count, sent2.message_count);
        byte_count = omega (arith, sent1.byte_count, sent2.byte_count);
      },
    )
