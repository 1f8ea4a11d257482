-- ===== src/Net/Bandwidth/Whole.antt =====
-- peak_bandwidth.c as a whole: what it prints of either host.
use cse.Base.{ℕ, ◌≡◌, refl, false, String, List, [], ◌∷◌, ◌++◌, length}
use cse.Base.Int.{ℤ, pos, is_zero, is_negative}
use cse.Double.{Double, ◌⊘◌, of_int, decimal, to_float}
use cse.Machine.{
  Timespec, text, int, double, printf, socket, connect, malloc, free, close, Kernel, Trace, done,
  log, readings, Ends,
}
use cse.Common.Setup.{init_test}
use cse.Net.Bandwidth.{send_data_byte_size, discard_service_port, tcp_peak_bandwidth, main}
use cse.Net.Bandwidth.Minimum.{sends, times, Least, send_all-Least}

-- Memory is found, and every socket can be made and connected.
pub record IsReady {D : Type 0} (k : Kernel D) : Type 0 where
  pub found : (t : Trace D) → is_zero (k t (malloc send_data_byte_size)).value ≡ false
  pub sockets : (t : Trace D) → is_negative (k t socket).value ≡ false
  pub connects :
      (t : Trace D) (sock : ℤ) (ip : String)
      → is_negative (k t (connect sock ip discard_service_port)).value ≡ false

-- From the trace `t` to `t'` memory has been found and a connection made, a hundred messages have been sent, each
-- between two readings of the clock, the socket closed and the buffer freed, and the least of the times between
-- the readings has been printed. There are no other calls.
pub record Peak {D : Type 0} ⦃d : Double D⦄ (k : Kernel D) (ip : String) (t t' : Trace D)
    : Type 0 where
  pub sock : ℤ
  pub buffer : ℤ
  pub min_time : ℕ
  pub new : List Timespec
  pub sent : Trace D
  pub allocated : buffer ≡ (k t (malloc send_data_byte_size)).value
  pub connected : sock ≡ (k (log k t (malloc send_data_byte_size)) socket).value
  pub called :
      sent
      ≡ sends k sock buffer 100
          (log k (log k (log k t (malloc send_data_byte_size)) socket) (connect sock ip 9))
  pub read : readings sent ≡ new ++ readings t
  pub count : length new ≡ 200
  pub least : Least min_time (times D new)
  pub printed :
      t'
      ≡ log k (log k (log k sent (close sock)) (free buffer)) (
          printf "%s\t%u bytes in %f s\n" (
            text ip
            ∷ int (pos 12500000)
            ∷ double (to_float (of_int (pos min_time)) ⊘ decimal 1000000000 0)
            ∷ []))

module _ {D : Type 0} ⦃d : Double D⦄ (k : Kernel D) (ready : IsReady k) where
  tcp_peak_bandwidth-Peak :
      (ip : String) (t : Trace D) → Ends (λ _ t'. Peak k ip t t') (tcp_peak_bandwidth ip k t)
  unfolding tcp_peak_bandwidth readings
  tcp_peak_bandwidth-Peak ip t =
      let buffer = (k t (malloc send_data_byte_size)).value in
      let t1 = log k t (malloc send_data_byte_size) in
      let sock = (k t1 socket).value in
      let t2 = log k t1 socket in
      let (min_time, sent, run, (new, read, count, least, called)) =
        send_all-Least k sock buffer (log k t2 (connect sock ip discard_service_port)) in
      rw (ready.found t, ready.sockets t1, ready.connects t2 sock ip, run)
        (
          tt,
          _,
          refl,
          record {
            sock = sock;
            buffer = buffer;
            min_time = min_time;
            new = new;
            sent = sent;
            allocated = refl;
            connected = refl;
            called = called;
            read = read;
            count = count;
            least = least;
            printed = refl;
          },
        )

  -- If `init_test` succeeds, memory is found and the sockets can be made and connected, peak_bandwidth.c
  -- returns 0. On a connection to either host it has sent a hundred messages of 12500000 bytes, each between two
  -- readings of the clock, closed the socket and freed the buffer, and printed the least of the hundred times
  -- (or ULLONG_MAX, if that is less). It has made no other calls.
  pub main-Peak :
      (t t0 : Trace D)
      → init_test k t ≡ done (pos 0) t0
      → (t1 t2 : Trace D) × (main k t ≡ done (pos 0) t2)
        × Peak k "127.0.0.1" t0 t1
        × Peak k "169.254.5.251" t1 t2
  unfolding main
  main-Peak t t0 started =
      let (_, t1, run1, near) = tcp_peak_bandwidth-Peak "127.0.0.1" t0 in
      let (_, t2, run2, far) = tcp_peak_bandwidth-Peak "169.254.5.251" t1 in
      (t1, t2, rw (started, run1, run2) refl, near, far)
