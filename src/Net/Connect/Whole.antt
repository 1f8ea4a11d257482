-- ===== src/Net/Connect/Whole.antt =====
-- connect_disconnect.c as a whole: both servers, one after the other.
use cse.Base.{◌≡◌, refl, String, [], ◌∷◌}
use cse.Base.Int.{pos}
use cse.Double.{Double, ◌⊗◌, ◌⊘◌, of_int, decimal}
use cse.Machine.{text, double, printf, Call, Kernel, Trace, done, log}
use cse.Common.Setup.{init_test}
use cse.Net.Connect.{test_count, Totals, main}
use cse.Net.Connect.Accounts.{Accounts, SocketsAreMade, connect_disconnect-Accounts}

-- the line of one server
abbrev pub averages : {D : Type 0} ⦃d : Double D⦄ → String → Totals → Call D
averages ip totals = printf "%s\tconnect avg %f ms\tclose avg %f ms\n" (
    text ip
    ∷ double
        (of_int (pos totals.connect_time_total) ⊘ (of_int (pos test_count) ⊗ decimal 1000000 0))
    ∷ double (of_int (pos totals.close_time_total) ⊘ (of_int (pos test_count) ⊗ decimal 1000000 0))
    ∷ [])

-- If `init_test` succeeds and sockets can be made, connect_disconnect.c returns 0. For either server it has
-- made a thousand rounds: a socket is made, `connect` is called on it between two readings of the clock, and
-- after a pause `close` between two more; a round makes no other calls. It has printed the averages of two
-- totals: the sums, modulo 2 ^ 64, of the times around `connect` and of those around `close`.
pub main-Accounts :
    {D : Type 0} ⦃d : Double D⦄ (k : Kernel D) (t t0 : Trace D)
    → SocketsAreMade k
    → init_test k t ≡ done (pos 0) t0
    → (near far : Totals) × (t1 t2 : Trace D) × Accounts k "127.0.0.1" t0 1000 near t1
      × Accounts k "169.254.5.251" (log k t1 (averages "127.0.0.1" near)) 1000 far t2
      × (main k t ≡ done (pos 0) (log k t2 (averages "169.254.5.251" far)))
unfolding main
main-Accounts k t t0 made started =
    let (near, t1, a1, run1) = connect_disconnect-Accounts k "127.0.0.1" t0 made in
    let s = log k t1 (averages "127.0.0.1" near) in
    let (far, t2, a2, run2) = connect_disconnect-Accounts k "169.254.5.251" s made in
    (near, far, t1, t2, a1, a2, rw (started, run1, run2) refl)
