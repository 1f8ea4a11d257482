-- ===== src/Tests.antt =====
-- Test data, runs at concrete inputs, and the theorems at inputs that meet their hypotheses.
pub mod Kernels
pub mod Started
mod Common
mod FileRead
mod Net
mod Overhead
mod Memory
mod Tasks
mod Threads
mod Switch
