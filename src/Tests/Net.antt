-- ===== src/Tests/Net.antt =====
-- The network programs at concrete inputs.
use cse.Base.{◌≡◌, refl, [], arith, suc}
use cse.Base.Int.{pos, negsuc}
use cse.Double.Milli.{Milli, milli_double}
use cse.Machine.{Trace, log, done, looping, calls, copies, recv}
use cse.Net.RoundTrip.{receive_loop, tcp_ping}
use cse.Net.RoundTrip.Receive.{
  Received, receive_loop-Received, receive_loop-failing, receive_loop-closed,
}
use cse.Net.RoundTrip.Ping.{Sent, IsEcho}
use cse.Net.RoundTrip.Rounds.{Pinged}
use cse.Net.RoundTrip.Whole.{main-Pinged}
use cse.Net.Connect.{connect_disconnect, Totals}
use cse.Net.Connect.Accounts.{Accounts}
use cse.Net.Connect.Whole.{averages, main-Accounts}
use cse.Net.Bandwidth
use cse.Net.Bandwidth.Whole.{Peak, main-Peak}
use cse.Tests.Started.{set_up, steady_started, found_started}
use cse.Tests.Kernels.{steady, found, broken, silent}

receive_loop-Received_example :
    Received steady (pos 3) 100 0 [] (receive_loop 101 (pos 3) 100 (pos 0) steady [])
receive_loop-Received_example =
    receive_loop-Received steady (pos 3) 100 101 0 [] (λ t. (100, refl, omega arith, omega arith))
      (omega arith) (omega arith) (omega arith)

receive_loop-failing_example :
    (t' : Trace Milli) × (receive_loop 42 (pos 3) 100 (pos 40) broken [] ≡ done (negsuc 0) t')
    × (calls t' ≡ copies (suc 40) (recv (pos 3) 100) (calls []))
receive_loop-failing_example =
    receive_loop-failing broken (pos 3) 100 42 40 [] (λ t. refl) (omega arith) (omega arith)
      (omega arith)

receive_loop-closed_example :
    (t' : Trace Milli) × (receive_loop 1000 (pos 3) 100 (pos 40) silent [] ≡ looping t')
    × (calls t' ≡ copies 1000 (recv (pos 3) 100) (calls []))
receive_loop-closed_example =
    receive_loop-closed silent (pos 3) 100 1000 40 [] (λ t. refl) (omega arith) (omega arith)

steady-IsEcho : IsEcho steady
steady-IsEcho = record {
  sock_ok = λ t. refl;
  connect_ok = λ t sock ip. refl;
  echoes = λ sock size h t. (size, refl, h, omega arith);
}

main-Pinged_example :
    (t1 t2 : Trace Milli) × (cse.Net.RoundTrip.main 1001 steady [] ≡ done (pos 0) t2)
    × Pinged steady "127.0.0.1" (set_up steady) t1
    × Pinged steady "169.254.5.251" t1 t2
    × Sent (calls (set_up steady)) 1002 550200 t2
main-Pinged_example =
    main-Pinged steady 1001 [] (set_up steady) steady-IsEcho (omega arith) steady_started

main-Accounts_example :
    (near far : Totals) × (t1 t2 : Trace Milli) × Accounts steady "127.0.0.1"
      (set_up steady)
      1000
      near
      t1
    × Accounts steady "169.254.5.251" (log steady t1 (averages "127.0.0.1" near)) 1000 far t2
    × (cse.Net.Connect.main steady [] ≡ done (pos 0) (log steady t2 (averages "169.254.5.251" far)))
main-Accounts_example = main-Accounts steady [] (set_up steady) (λ t. refl) steady_started

main-Peak_example :
    (t1 t2 : Trace Milli) × (cse.Net.Bandwidth.main found [] ≡ done (pos 0) t2)
    × Peak found "127.0.0.1" (set_up found) t1
    × Peak found "169.254.5.251" t1 t2
main-Peak_example =
    main-Peak found
      (record { found = λ t. refl; sockets = λ t. refl; connects = λ t sock ip. refl }) []
      (set_up found) found_started
