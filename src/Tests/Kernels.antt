-- ===== src/Tests/Kernels.antt =====
-- Kernels on which the programs run in tests, with fixed-point numbers for `double`.
use cse.Base.Int.{ℤ, pos, negsuc}
use cse.Double.Milli.{Milli}
use cse.Machine.{
  Call, rand, recv, socket, fopen, futex_wake, fork, vfork, malloc, posix_memalign, Reply, Kernel,
}

abbrev pub number : ℤ → Reply
number n = record {
  value = n;
  time = record { tv_sec = pos 12; tv_nsec = pos 500 };
  cpu_min = 600000;
  cpu_max = 1200000;
  frequency = 1200000;
}

-- every call succeeds; `recv` delivers all it is asked for
abbrev pub answer : Call Milli → Reply
answer (recv sock size) = number (pos size)
answer rand = number (pos 7)
answer socket = number (pos 3)
answer (posix_memalign alignment size) = number (pos 8192)
answer _ = number (pos 0)

abbrev pub steady : Kernel Milli
steady t c = answer c

-- the connection has broken, or the peer has closed it
abbrev pub broken : Kernel Milli
broken t c = number (negsuc 0)

abbrev pub silent : Kernel Milli
silent t c = number (pos 0)

-- every call succeeds, `malloc` finds memory, `fopen` a file, FUTEX_WAKE a sleeper, and `fork` and `vfork` have made a child
abbrev pub with_memory : Call Milli → Reply
with_memory (malloc size) = number (pos 8192)
with_memory (fopen name mode) = number (pos 4)
with_memory (futex_wake pointer count) = number (pos 1)
with_memory fork = number (pos 77)
with_memory vfork = number (pos 78)
with_memory c = answer c

abbrev pub found : Kernel Milli
found t c = with_memory c
