-- ===== src/Overhead.antt =====
-- The programs that measure the cost of a loop, of a library call, of a system call and of reading a
-- clock: for_loop.c, rand.c, system_call_overhead.c, clock_gettime.c, hpet_clock_resolutions.c,
-- procedure_call.c and sys_clock_test.c.
pub mod ForLoop
pub mod Rand
pub mod SystemCall
pub mod Clocks
pub mod Resolutions
pub mod Procedure
pub mod SysClock
