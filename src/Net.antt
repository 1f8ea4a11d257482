-- ===== src/Net.antt =====
-- The network programs: network_round_trip.c, connect_disconnect.c and peak_bandwidth.c. The three
-- files repeat the function `print_errno`.
pub mod RoundTrip
pub mod Connect
pub mod Bandwidth
use cse.Base.{[], ◌∷◌}
use cse.Base.Int.{ℤ}
use cse.Machine.{int, error_text, errno, eprintf, perror, M, and_then, ◌>>=◌, ◌>>◌, call, value_of}

unfoldable pub print_errno : {D : Type 0} → M D (Unit {0})
print_errno = do
  code ← value_of errno
  call (eprintf "Value of errno: %d\n" (int code ∷ []))
  call (perror "Error printed by perror")
  last ← value_of errno
  call (eprintf "Output by strerror: %s\n" (error_text last ∷ []))
