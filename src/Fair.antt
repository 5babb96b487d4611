-- ===== src/Fair.antt =====
-- include/fair_mutex.hpp and include/fair_shared_mutex.hpp: mutexes that serve their callers in order.
pub mod Counted
pub mod Ticket
pub mod WaitQueue
pub mod Recursive
pub mod Timed
pub mod RecursiveTimed
pub mod Shared
