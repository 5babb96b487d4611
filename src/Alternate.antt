-- ===== src/Alternate.antt =====
-- include/alternate_mutex.hpp: the classes of `yamc::alternate` but `mutex`, which is `std::mutex`.
pub mod Recursive
pub mod Timed
pub mod RecursiveTimed
pub mod Examples
