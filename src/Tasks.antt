-- ===== src/Tasks.antt =====
-- The programs about threads and processes: thread_context_switch.c and process_context_switch.c,
-- futex_wait.c and futex_wake.c, task_creation.c and file_contention.c.
pub mod Fairness
pub mod Switch
pub mod Rounds
pub mod Futex
pub mod Creation
pub mod Contention
