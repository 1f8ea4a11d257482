-- ===== src/Memory.antt =====
-- The programs that measure memory: page_fault_access.c, file_cache.c, memory_bandwidth.c and
-- ram_access_time.c.
pub mod Mapped
pub mod PageFault
pub mod FileCache
pub mod Bandwidth
pub mod Ram
