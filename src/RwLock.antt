-- ===== src/RwLock.antt =====
-- include/yamc_rwlock_sched.hpp: what a readers-writer scheduling policy is, and what it promises.
pub mod ReaderPrefer
pub mod WriterPrefer
pub mod Policy
