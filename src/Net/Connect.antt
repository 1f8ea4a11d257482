-- ===== src/Net/Connect.antt =====
-- rpi3_bench/connect_disconnect.c: the time to open and to close a connection.
pub mod Accounts
pub mod Whole
use cse.Base.{ℕ, ◌+◌, ◌*◌, ◌%◌, ◌^◌, String, not, [], ◌∷◌, if◌then◌else◌}
use cse.Base.Int.{ℤ, pos, is_zero, is_negative}
use cse.Double.{Double, ◌⊖◌, ◌⊗◌, ◌⊘◌, of_int, decimal, to_ullong}
use cse.Machine.{
  Timespec, text, double, clock_gettime, monotonic_raw, socket, connect, usleep, close, M, pure,
  and_then, ◌>>=◌, ◌>>◌, ask, call, value_of, print, exit, exit_failure, for_range,
}
use cse.Common.{get_time_overhead, syscall_overhead}
use cse.Common.Setup.{init_test}
use cse.Common.Time.{elapsed}
use cse.Net.{print_errno}

abbrev pub discard_service_port : ℕ
discard_service_port = 9

abbrev pub test_count : ℕ
test_count = 1000

-- the time of one `connect` or one `close`, as an `unsigned long long`
unfoldable pub call_time : (D : Type 0) ⦃d : Double D⦄ → (start stop : Timespec) → ℕ
call_time D start stop =
    to_ullong (elapsed {D = D} start stop ⊖ of_int (pos get_time_overhead) ⊖ syscall_overhead)

-- the two totals of the loop
pub record Totals : Type 0 where
  pub connect_time_total : ℕ
  pub close_time_total : ℕ

module _ {D : Type 0} ⦃d : Double D⦄ where
  -- One round of the loop. DEBUG is not defined, so the result of `connect` is not looked at.
  unfoldable pub connect_once : (ip_address : String) → Totals → M D Totals
  connect_once ip_address totals = do
    sock ← value_of socket
    if is_negative sock
        then (do
          print "Failed to CREATE socket." []
          print_errno
          call (close sock)
          exit exit_failure)
        else do
          connect_start ← ask (clock_gettime monotonic_raw)
          call (connect sock ip_address discard_service_port)
          connect_stop ← ask (clock_gettime monotonic_raw)
          call (usleep 100000)
          close_start ← ask (clock_gettime monotonic_raw)
          call (close sock)
          close_stop ← ask (clock_gettime monotonic_raw)
          pure (record {
            connect_time_total =
                (totals.connect_time_total + call_time D connect_start.time connect_stop.time)
                % 2 ^ 64;
            close_time_total =
                (totals.close_time_total + call_time D close_start.time close_stop.time) % 2 ^ 64;
          })

  unfoldable pub connect_disconnect : (ip_address : String) → M D (Unit {0})
  connect_disconnect ip_address = do
    totals ←
        for_range test_count 0 (λ _ totals. connect_once ip_address totals)
          (record { connect_time_total = 0; close_time_total = 0 })
    let divisor = of_int (pos test_count) ⊗ decimal 1000000 0
    print "%s\tconnect avg %f ms\tclose avg %f ms\n" (
        text ip_address
        ∷ double (of_int (pos totals.connect_time_total) ⊘ divisor)
        ∷ double (of_int (pos totals.close_time_total) ⊘ divisor)
        ∷ [])

  unfoldable pub main : M D ℤ
  main = do
    status ← init_test
    if not (is_zero status)
        then (do print "FAILURE init_test" []; print_errno; exit exit_failure)
        else do connect_disconnect "127.0.0.1"; connect_disconnect "169.254.5.251"; pure (pos 0)
