-- ===== src/Lib.antt =====
-- The benchmarks of rpi3_bench: small C programs that measure what operations of the operating
-- system cost on a Raspberry Pi 3. Each program has its own `main`; they share common.c, which
-- sets the process up on one CPU at a fixed frequency and has the overheads, the time arithmetic
-- and the statistics.
--
-- How a program is modelled. A function of the source becomes a function into the monad `M`
-- (Machine): given the kernel, which answers every call of the operating system and of the C
-- library, and the trace of the calls so far, it returns a result and the trace, or says how the
-- program stopped: by `exit`, by a failed `assert`, by an access outside an array, or, in a loop
-- with fuel, because the fuel ran out. The kernel is any function of the trace and the call, so a
-- theorem holds for every behaviour of the system that its hypotheses allow. A clock reading, a
-- socket call, a `printf`, a load from a mapping and an access to a block that
-- memory_bandwidth.c or ram_access_time.c allocates are calls of the trace; local arrays are
-- lists, and what they hold before they are written is an argument (`garbage`); a read or a write
-- outside a list is a fault. An `int` is wrapped to 32 bits and an `unsigned long long` to 64 where
-- the source's arithmetic can leave them.
--
-- Floating point. `double` is a parameter: the interface `Double` has the operations that the
-- source uses. Theorems that need more of it name it: `IsExact` (integers below 2 ^ 53 are
-- exact), `IsOrdered` (the order of numbers that are not NaN). Double.Milli, with fixed-point
-- numbers, is an instance of all of it, on which the tests run. `qsort` of the C library is a
-- parameter too.
--
-- Which file models what (paths of the source from the repository's root):
--   Base          numbers, lists, tests, counting, and the integers of C
--   Double        the interface of `double`
--   Machine       calls, traces, the monad, loops, the rules for runs that end, and arrays that a loop fills
--                 with times (Timed)
--   Common        rpi3_bench/common.c and common.h: Setup (init_test), Time, Stats
--   FileRead      rpi3_bench/file_read.c
--   Net           RoundTrip: network_round_trip.c; Connect: connect_disconnect.c; Bandwidth:
--                 peak_bandwidth.c
--   Overhead      ForLoop: for_loop.c; Rand: rand.c; SystemCall: system_call_overhead.c; Clocks:
--                 clock_gettime.c; Resolutions: hpet_clock_resolutions.c; Procedure:
--                 procedure_call.c; SysClock: sys_clock_test.c
--   Memory        Mapped: the functions of page_fault_access.c (PageFault) on a mapped file, and the
--                 loop over a mapping that file_cache.c (FileCache) has too;
--                 Bandwidth: memory_bandwidth.c; Ram: ram_access_time.c
--   Tasks         Creation: task_creation.c; Contention: file_contention.c; Futex: futex_wait.c and
--                 futex_wake.c; Rounds: thread_context_switch.c and process_context_switch.c, each side
--                 as a program of its own; Switch: the two sides of these together, as one machine;
--                 Contention.Threads: main and the threads of file_contention.c together; Fairness: what
--                 the schedules of the machines have in common
--   Tests         kernels for tests, runs, and each theorem at a concrete input
--
-- Names keep the source's words. A loop has a function of its own, with the range it still has to
-- go through; where the end of a loop depends on the kernel it has fuel: `receive_loop` of
-- network_round_trip.c needs as many steps as bytes if every `recv` delivers one at least, and
-- `touch` of the mapped files needs one for each 4096 pages; the loops that retry a futex call need
-- no more than the schedule has moves. What is a loop for ever in the source uses up any fuel. The
-- functions print_errno and set_process_cpu_and_freq, which programs repeat word for word, are
-- modelled once.
--
-- The module Whole of a program (Touched, Printed, Rates or Rows in some) has its `main`. What `main` has done
-- is described by a chain of traces: each part of the program, a line of its output mostly, leads from the end
-- of the part before to its own, and its record has the calls between them and what the line is computed
-- from. Where a run of task_creation.c may go on in a child that `fork` has made, Creation.Children has the
-- rules.
--
-- Where two threads or processes share memory there are two views. As a program, each side runs
-- against a kernel that stands for the rest of the system. In Tasks.Switch both sides are one
-- machine whose state is the shared word, the place where each side stands and the rounds it has
-- left; a schedule says who makes the next step and where a signal arrives, and each system call
-- and each store is one step. Tasks.Rounds.History has the calls that each side of the machine makes
-- under a schedule, with the answers that the futex gives, and ParentRest and ChildRest what the
-- programs have still to do at each place of the machine: by these the two views agree. Rank is the
-- measure that shows how long a fair schedule can be.
--
-- In Tasks.Contention.Threads the main thread of file_contention.c and the ten that it starts are one
-- machine. What they share is the baton of the round, a variable whose life ends with the round, and its
-- barrier: a step is a visit of either, and who comes first to the barrier waits for the second. A
-- measure of the steps that the round and its thread have still to make bounds the fair schedules.
-- Threads.History has what its `main` does to threads and barriers and its reads under a schedule, and
-- Threads.Refines compares this with the calls of the program; Threads.Arrivals and Threads.Child are the
-- same for one of the ten threads.
--
-- Not modelled: the bytes in the buffers that are sent and read, which no program looks at; the
-- socket address, but for its address and port; the flags and attributes that are the same at
-- every call; the conversion of `printf`; the thread function of task_creation.c, which ends its thread at
-- once; the Makefile.
pub mod Base
pub mod Double
pub mod Machine
pub mod Common
pub mod FileRead
pub mod Net
pub mod Tests
pub mod Overhead
pub mod Memory
pub mod Tasks
