-- ===== src/Net/Bandwidth.antt =====
-- rpi3_bench/peak_bandwidth.c: the shortest time to send 100 megabits.
pub mod Minimum
pub mod Whole
use cse.Base.{ℕ, ◌-◌, ◌^◌, String, not, [], ◌∷◌, ltb, if◌then◌else◌}
use cse.Base.Int.{ℤ, pos, is_zero, is_negative}
use cse.Double.{Double, ◌⊖◌, ◌⊘◌, of_int, decimal, to_ullong, to_float}
use cse.Machine.{
  Timespec, text, int, double, clock_gettime, monotonic_raw, socket, connect, send, malloc, memset,
  free, close, M, pure, and_then, ◌>>=◌, ◌>>◌, ask, call, value_of, print, exit, exit_failure,
  for_range,
}
use cse.Common.{get_time_overhead}
use cse.Common.Setup.{init_test}
use cse.Common.Time.{elapsed}
use cse.Net.{print_errno}

abbrev pub discard_service_port : ℕ
discard_service_port = 9

abbrev pub test_count : ℕ
test_count = 100

-- 12500000 bytes = 100 megabits
abbrev pub send_data_byte_size : ℕ
send_data_byte_size = 12500000

abbrev pub ullong_max : ℕ
ullong_max = 2 ^ 64 - 1

unfoldable pub send_time : (D : Type 0) ⦃d : Double D⦄ → (start stop : Timespec) → ℕ
send_time D start stop = to_ullong (elapsed {D = D} start stop ⊖ of_int (pos get_time_overhead))

module _ {D : Type 0} ⦃d : Double D⦄ where
  -- one round of the loop: the least time so far
  unfoldable pub send_once : (sock buffer : ℤ) → (min_time : ℕ) → M D ℕ
  send_once sock buffer min_time = do
    call (memset buffer (pos b'b') send_data_byte_size)
    start ← ask (clock_gettime monotonic_raw)
    call (send sock send_data_byte_size)
    stop ← ask (clock_gettime monotonic_raw)
    let time = send_time D start.time stop.time
    pure (if ltb time min_time then time else min_time)

  unfoldable pub send_all : (sock buffer : ℤ) → M D ℕ
  send_all sock buffer =
      for_range test_count 0 (λ _ min_time. send_once sock buffer min_time) ullong_max

  unfoldable pub tcp_peak_bandwidth : (ip_address : String) → M D (Unit {0})
  tcp_peak_bandwidth ip_address = do
    buffer ← value_of (malloc send_data_byte_size)
    if is_zero buffer
        then (do print "Failed allocate memory to send buffer.\n" []; exit exit_failure)
        else do
          sock ← value_of socket
          if is_negative sock
              then (do
                print "Failed to CREATE socket." []
                print_errno
                call (close sock)
                exit exit_failure)
              else do
                status ← value_of (connect sock ip_address discard_service_port)
                if is_negative status
                    then (do
                      print "Failed to CONNECT to socket.\n" []
                      print_errno
                      call (close sock)
                      exit exit_failure)
                    else do
                      min_time ← send_all sock buffer
                      call (close sock)
                      call (free buffer)
                      print "%s\t%u bytes in %f s\n" (
                          text ip_address
                          ∷ int (pos send_data_byte_size)
                          ∷ double (to_float (of_int (pos min_time)) ⊘ decimal 1000000000 0)
                          ∷ [])

  unfoldable pub main : M D ℤ
  main = do
    status ← init_test
    if not (is_zero status)
        then (do print "FAILURE init_test" []; print_errno; exit exit_failure)
        else do tcp_peak_bandwidth "127.0.0.1"; tcp_peak_bandwidth "169.254.5.251"; pure (pos 0)
