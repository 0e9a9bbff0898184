-- ===== src/Pools.antt =====
-- src/include/threadPool.h and src/readThreadPool.h: the threads that run tasks.
pub mod Threads
pub mod Order
pub mod Drain
pub mod Readers
pub mod Shared
