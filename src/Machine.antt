-- ===== src/Machine.antt =====
-- How the programs of rpi3_bench run: a program is a function of the kernel (the operating system
-- and the C library, which answer each call) and of the trace of calls made so far, newest first.
-- The kernel may look at the whole trace, so it is any environment, also one that changes its mind.
mod Calls
mod Monad
mod Loops
mod Laws
mod Silent
mod Readings
mod Total
mod Filled
mod Timed
unfoldable pub use Calls.*
unfoldable pub use Monad.*
unfoldable pub use Loops.*
unfoldable pub use Laws.*
unfoldable pub use Total.*
unfoldable pub use Readings.*
pub use Silent.*
pub use Filled.*
unfoldable pub use Timed.*
