-- ===== src/Sync.antt =====
-- os/src/sync: the locks of the kernel.
pub mod RwLock
pub mod Semaphore
pub mod Futex
