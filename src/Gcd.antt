-- ===== src/Gcd.antt =====
-- include/gcd_semaphore.hpp: `yamc::gcd::counting_semaphore`. The calls of Grand Central Dispatch are an
-- interface. A duration is a number of nanoseconds, and a point in time one since the clock's epoch, which
-- is that of UNIX for `system_clock`.
pub mod Permits
pub mod Examples
use yamc.Common.{
  ℕ, zero, suc, ◌+◌, Bool, true, false, leb, Option, none, some, if◌then◌else◌, ℤ, pos, negsuc,
  minus, plus,
}
use yamc.Errors.{Answer, done, thrown, Errc, invalid_argument, resource_unavailable_try_again}

-- A `dispatch_time_t`: `DISPATCH_TIME_NOW`, `DISPATCH_TIME_FOREVER`, and those that `dispatch_time` makes of
-- now, and `dispatch_walltime` of the epoch.
pub data DispatchTime : Type 0 where
  now forever : DispatchTime
  from_now from_epoch : ℤ → DispatchTime

-- `KERN_SUCCESS`, `KERN_OPERATION_TIMED_OUT`, or another value.
pub data Kern : Type 0 where
  kern_success kern_operation_timed_out other : Kern

pub record Dispatch (S : Type 0) : Type 0 where
  pub semaphore_create : ℕ → S
  pub semaphore_signal : S → S
  pub semaphore_wait : DispatchTime → S → Kern × S

-- For a clock that is not `system_clock`; the arguments after the point in time are what
-- `system_clock::now()` and `Clock::now()` return.
abbrev pub from_unix_epoch : ℕ → ℕ → ℕ → ℤ
from_unix_epoch tp sys_now clock_now = plus (minus tp clock_now) sys_now

-- After the waits of `acquire`, and of `try_acquire_for` and `try_acquire_until`.
abbrev pub must : Kern → Answer Errc
must kern_success = done true
must _ = thrown resource_unavailable_try_again

abbrev pub timed : Kern → Answer Errc
timed kern_success = done true
timed kern_operation_timed_out = done false
timed other = thrown resource_unavailable_try_again

abbrev pub is_success : Kern → Bool
is_success kern_success = true
is_success _ = false

module _ {S : Type 0} (P : Dispatch S) where
  open P use {semaphore_create, semaphore_signal, semaphore_wait}

  -- `validate_native_handle`, before the rest of a member; `valid` is `dsema_ != NULL`.
  abbrev pub validated : Bool → S → Answer Errc × S → Answer Errc × S
  validated valid s rest = if valid then rest else (thrown invalid_argument, s)

  -- The constructor, where `limit` is `max()`; its assertion fails in the cases that give `none`.
  unfoldable pub construct : ℕ → ℤ → Option S
  construct limit (pos desired) =
      if leb desired limit then some (semaphore_create desired) else none
  construct limit (negsuc n) = none

  -- The loop of `release`, with `update` rounds left.
  unfoldable pub signal_all : ℕ → S → S
  signal_all zero s = s
  signal_all (suc n) s = signal_all n (semaphore_signal s)

  unfoldable pub release : Bool → ℤ → S → Answer Errc × S
  unfolding signal_all
  release valid (pos update) s = validated valid s (done true, signal_all update s)
  release valid (negsuc n) s = validated valid s (done true, s)

  unfoldable pub acquire : Bool → S → Answer Errc × S
  acquire valid s = validated valid s (let r = semaphore_wait forever s in (must r.0, r.1))

  unfoldable pub try_acquire : Bool → S → Bool × S
  try_acquire valid s =
      let r = semaphore_wait now s in if valid then (is_success r.0, r.1) else (false, s)

  unfoldable pub try_acquire_for : Bool → ℤ → S → Answer Errc × S
  try_acquire_for valid rel_time s =
      validated valid s (let r = semaphore_wait (from_now rel_time) s in (timed r.0, r.1))

  -- With a point in time of `system_clock`, and of another clock.
  unfoldable pub try_acquire_until : Bool → ℤ → S → Answer Errc × S
  try_acquire_until valid abs_time s =
      validated valid s (let r = semaphore_wait (from_epoch abs_time) s in (timed r.0, r.1))

  unfoldable pub try_acquire_until_of : Bool → ℕ → ℕ → ℕ → S → Answer Errc × S
  unfolding try_acquire_until
  try_acquire_until_of valid abs_time sys_now clock_now s =
      try_acquire_until valid (from_unix_epoch abs_time sys_now clock_now) s
