-- ===== src/Win.antt =====
-- include/win_native_mutex.hpp and include/win_semaphore.hpp: `yamc::win::native_mutex` and
-- `yamc::win::counting_semaphore`, with `YAMC_WIN_ACCURATE_TIMEOUT` 1. The calls of the operating system are
-- an interface. A duration is a number of nanoseconds, and a point in time one since the clock's epoch.
pub mod Timeout
pub mod Examples
use yamc.Common.{
  ℕ, zero, suc, ◌+◌, ◌-◌, ◌*◌, ◌/◌, ◌%◌, ◌^◌, Bool, true, false, if◌then◌else◌, ltb, leb, ◌&&◌, not,
  ℤ, pos, negsuc, minus, plus,
}
use yamc.Errors.{Answer, done, thrown, Errc, invalid_argument, resource_unavailable_try_again}

-- `duration_cast<milliseconds>`, which rounds towards zero.
abbrev pub to_msec : ℤ → ℤ
to_msec (pos t) = pos (t / 1000000)
to_msec (negsuc t) = minus 0 ((t + 1) / 1000000)

-- `static_cast<DWORD>`.
abbrev pub dword : ℤ → ℕ
dword (pos t) = t % 2 ^ 32
dword (negsuc t) = 2 ^ 32 - 1 - t % 2 ^ 32

abbrev pub infinite : ℕ
infinite = 2 ^ 32 - 1

pub timeout_in_msec : ℤ → ℕ
timeout_in_msec t = dword (to_msec (plus t 999999))

-- What `WaitForSingleObject` returns: `WAIT_OBJECT_0`, `WAIT_TIMEOUT`, or another value.
pub data Result : Type 0 where
  object_0 timed_out other : Result

-- `WaitForSingleObject` with its timeout in milliseconds, `Sleep`, `ReleaseMutex`, and `ReleaseSemaphore`,
-- which says whether it succeeds.
pub record Win32 (S : Type 0) : Type 0 where
  pub wait_for_single_object : ℕ → S → Result × S
  pub sleep : ℕ → S → S
  pub release_mutex : S → S
  pub release_semaphore : ℕ → S → Bool × S

module _ {S : Type 0} (W : Win32 S) where
  open W use {wait_for_single_object, sleep, release_mutex, release_semaphore}

  -- `do_try_lockwait` and `do_try_acquirewait` after their wait.
  pub conclude : ℕ → Result × S → Answer Errc × S
  conclude timeout (object_0, s) = (done true, s)
  conclude timeout (timed_out, s) = (done false, if ltb 0 timeout then sleep 1 s else s)
  conclude timeout (other, s) = (thrown resource_unavailable_try_again, s)

  pub do_try_lockwait : ℤ → S → Answer Errc × S
  unfolding conclude timeout_in_msec
  do_try_lockwait t s = conclude (timeout_in_msec t) (wait_for_single_object (timeout_in_msec t) s)

  -- `lock` and `acquire` after their wait, and `try_lock` and `try_acquire` after theirs.
  abbrev pub must : Result × S → Answer Errc × S
  must (object_0, s) = (done true, s)
  must (_, s) = (thrown resource_unavailable_try_again, s)

  abbrev pub tried : Result × S → Answer Errc × S
  tried (object_0, s) = (done true, s)
  tried (_, s) = (done false, s)

  pub lock : S → Answer Errc × S
  lock s = must (wait_for_single_object infinite s)

  pub try_lock : S → Answer Errc × S
  try_lock s = tried (wait_for_single_object 0 s)

  pub try_lock_for : ℤ → S → Answer Errc × S
  unfolding do_try_lockwait
  try_lock_for rel_time s = do_try_lockwait rel_time s

  -- `now` is what `Clock::now()` returns.
  pub try_lock_until : ℕ → ℕ → S → Answer Errc × S
  unfolding do_try_lockwait
  try_lock_until abs_time now s = do_try_lockwait (minus abs_time now) s

  pub unlock : S → Answer Errc × S
  unlock s = (done true, release_mutex s)

  -- `validate_native_handle`, before the rest of a member; `valid` is `hsem_ != NULL`.
  abbrev pub validated : Bool → S → Answer Errc × S → Answer Errc × S
  validated valid s rest = if valid then rest else (thrown invalid_argument, s)

  pub do_try_acquirewait : ℤ → S → Answer Errc × S
  unfolding conclude timeout_in_msec
  do_try_acquirewait t s =
      conclude (timeout_in_msec t) (wait_for_single_object (timeout_in_msec t) s)

  pub release : Bool → ℕ → S → Answer Errc × S
  release valid update s = validated valid s (
      let (result, t) = release_semaphore update s in
      (if result then done true else thrown resource_unavailable_try_again, t))

  pub acquire : Bool → S → Answer Errc × S
  acquire valid s = validated valid s (must (wait_for_single_object infinite s))

  pub try_acquire : Bool → S → Answer Errc × S
  try_acquire valid s = if valid then tried (wait_for_single_object 0 s) else (done false, s)

  pub try_acquire_for : Bool → ℤ → S → Answer Errc × S
  unfolding do_try_acquirewait
  try_acquire_for valid rel_time s = validated valid s (do_try_acquirewait rel_time s)

  pub try_acquire_until : Bool → ℕ → ℕ → S → Answer Errc × S
  unfolding do_try_acquirewait
  try_acquire_until valid abs_time now s =
      validated valid s (do_try_acquirewait (minus abs_time now) s)
