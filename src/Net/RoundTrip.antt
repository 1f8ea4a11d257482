-- ===== src/Net/RoundTrip.antt =====
-- rpi3_bench/network_round_trip.c: the time for a message to go to an echo server and back. What the
-- buffers hold (the letter b throughout) is left out.
pub mod Receive
pub mod Ping
pub mod Rounds
pub mod Whole
use cse.Base.{
  ℕ, zero, suc, ◌+◌, ◌-◌, ◌*◌, ◌/◌, ◌%◌, ◌^◌, String, not, List, [], ◌∷◌, ltb, if◌then◌else◌,
}
use cse.Base.Int.{ℤ, pos, is_zero, is_negative, to_unsigned, wrap_int, ◌+ℤ◌}
use cse.Double.{Double, ◌⊖◌, ◌⊗◌, ◌⊘◌, of_int, decimal, to_ullong}
use cse.Machine.{
  text, int, double, clock_gettime, monotonic_raw, socket, connect, send, recv, close, M, looping,
  pure, and_then, ◌>>=◌, ◌>>◌, ask, call, value_of, print, exit, exit_failure, for_range,
}
use cse.Common.{get_time_overhead, syscall_overhead}
use cse.Common.Setup.{init_test}
use cse.Common.Time.{elapsed}
use cse.Net.{print_errno}

abbrev pub echo_service_port : ℕ
echo_service_port = 7

abbrev pub tcp_test_count : ℕ
tcp_test_count = 50

abbrev pub max_payload_size : ℕ
max_payload_size = 1000

abbrev pub start_payload_size : ℕ
start_payload_size = 100

abbrev pub payload_iteration : ℕ
payload_iteration = 100

module _ {D : Type 0} where
  -- while (total_bytes_received < receive_size) { ... }, with fuel. The comparison is between an
  -- `int` and an `unsigned int`, so it converts the total to unsigned.
  unfoldable pub receive_loop :
      (fuel : ℕ) → (sock : ℤ) → (receive_size : ℕ) → (total_bytes_received : ℤ) → M D ℤ
  receive_loop zero sock receive_size total_bytes_received = λ k t. looping t
  receive_loop (suc fuel) sock receive_size total_bytes_received =
      if ltb (to_unsigned total_bytes_received) receive_size
      then (do
        bytes_received ← value_of (recv sock receive_size)
        receive_loop fuel sock receive_size (wrap_int (total_bytes_received +ℤ bytes_received)))
      else pure total_bytes_received

  unfoldable pub warm_up : (fuel : ℕ) → (sock : ℤ) → M D (Unit {0})
  warm_up fuel sock = do
    call (send sock start_payload_size)
    _ ← receive_loop fuel sock start_payload_size (pos 0)
    pure tt

module _ {D : Type 0} ⦃d : Double D⦄ where
  -- one round of the inner loop of `tcp_ping`
  unfoldable pub round_trip : (fuel : ℕ) → (sock : ℤ) → (send_size : ℕ) → (total_time : ℕ) → M D ℕ
  round_trip fuel sock send_size total_time = do
    send_start ← ask (clock_gettime monotonic_raw)
    call (send sock send_size)
    _ ← receive_loop fuel sock send_size (pos 0)
    send_stop ← ask (clock_gettime monotonic_raw)
    let round_trip_time = to_ullong (
        elapsed {D = D} send_start.time send_stop.time
        ⊖ of_int (pos get_time_overhead)
        ⊖ syscall_overhead ⊗ of_int (pos 2))
    pure ((total_time + round_trip_time) % 2 ^ 64)

  -- the outer loop for one size
  unfoldable pub ping_size :
      (fuel : ℕ) → (ip_address : String) → (sock : ℤ) → (send_size : ℕ) → M D (Unit {0})
  ping_size fuel ip_address sock send_size = do
    total_time ← for_range tcp_test_count 0 (λ _ total. round_trip fuel sock send_size total) 0
    print "%s\tsend_size = %u in %f ms\n" (
        text ip_address
        ∷ int (pos send_size)
        ∷ double (of_int (pos total_time) ⊘ decimal 1000000 0 ⊘ of_int (pos tcp_test_count))
        ∷ [])

  unfoldable pub tcp_ping : (fuel : ℕ) → (ip_address : String) → M D (Unit {0})
  tcp_ping fuel ip_address = do
    sock ← value_of socket
    if is_negative sock
        then (do
          print "Failed to CREATE socket" []
          print_errno
          call (close sock)
          exit exit_failure)
        else do
          status ← value_of (connect sock ip_address echo_service_port)
          if is_negative status
              then (do
                print "Failed to CONNECT to socket.\n" []
                print_errno
                call (close sock)
                exit exit_failure)
              else do
                warm_up fuel sock
                for_range ((max_payload_size - start_payload_size) / payload_iteration + 1) 0
                    (λ i _.
                      ping_size fuel ip_address sock (start_payload_size + i * payload_iteration))
                    tt
                call (close sock)

  unfoldable pub main : (fuel : ℕ) → M D ℤ
  main fuel = do
    status ← init_test
    if not (is_zero status)
        then (do print "FAILURE init_test" []; print_errno; exit exit_failure)
        else do tcp_ping fuel "127.0.0.1"; tcp_ping fuel "169.254.5.251"; pure (pos 0)
