-- ===== src/Posix.antt =====
-- include/posix_native_mutex.hpp and include/posix_semaphore.hpp: what the wrappers of POSIX primitives share.
-- A point in time is a number of nanoseconds since the epoch of `system_clock`.
pub mod Mutex
pub mod Semaphore
pub mod Deadline
pub mod Permits
pub mod Examples
use yamc.Common.{ℕ, Bool, true, false, ℤ, rem}

pub data Errno : Type 0 where
  einval etimedout eoverflow eintr other : Errno

-- What a call gives: 0, or the number of an error, returned or in `errno`.
pub data Code : Type 0 where
  success : Code
  failure : Errno → Code

abbrev pub succeeds : Code → Bool
succeeds success = true
succeeds (failure e) = false

pub record Timespec : Type 0 where
  pub tv_sec : ℤ
  pub tv_nsec : ℤ

-- `abs_timeout` of `do_try_lockwait` and `do_try_acquirewait`; `to_time_t` is that of `system_clock`.
abbrev pub abs_timeout : (ℤ → ℤ) → ℤ → Timespec
abs_timeout to_time_t tp = record { tv_sec = to_time_t tp; tv_nsec = rem tp 1000000000 }
