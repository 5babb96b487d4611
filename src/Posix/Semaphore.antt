-- ===== src/Posix/Semaphore.antt =====
-- include/posix_semaphore.hpp: `yamc::posix::counting_semaphore`.
use yamc.Common.{
  ℕ, zero, suc, ◌%◌, Bool, true, false, leb, Option, none, some, if◌then◌else◌, ℤ, pos, negsuc,
  minus, plus, unsigned_mod,
}
use yamc.Errors.{Answer, done, thrown}
use yamc.Posix.{
  Errno, etimedout, einval, eoverflow, eintr, other, Code, success, failure, succeeds, Timespec,
  abs_timeout,
}

-- The calls on a `sem_t`; one that fails returns -1 and sets `errno`.
pub record Sem (S : Type 0) : Type 0 where
  pub to_time_t : ℤ → ℤ
  pub sem_init : ℕ → S
  pub sem_post : S → Code × S
  pub sem_wait : S → Code × S
  pub sem_trywait : S → Code × S
  pub sem_timedwait : Timespec → S → Code × S

-- After `sem_wait`, and after `sem_timedwait`.
abbrev pub must : Code → Answer Errno
must success = done true
must (failure e) = thrown e

abbrev pub timed : Code → Answer Errno
timed success = done true
timed (failure etimedout) = done false
timed (failure einval) = thrown einval
timed (failure eoverflow) = thrown eoverflow
timed (failure eintr) = thrown eintr
timed (failure other) = thrown other

-- `to_system_timepoint` for a clock that is not `system_clock`; the arguments after the point in time are
-- what `system_clock::now()` and `Clock::now()` return.
abbrev pub to_system_timepoint : ℕ → ℕ → ℕ → ℤ
to_system_timepoint tp sys_now now = plus (minus tp now) sys_now

module _ {S : Type 0} (P : Sem S) where
  open P use {to_time_t, sem_init, sem_post, sem_wait, sem_trywait, sem_timedwait}

  unfoldable pub do_try_acquirewait : ℤ → S → Answer Errno × S
  do_try_acquirewait tp s = let r = sem_timedwait (abs_timeout to_time_t tp) s in (timed r.0, r.1)

  -- The constructor, where `limit` is `max()`; its assertion fails in the cases that give `none`.
  unfoldable pub construct : ℕ → ℤ → Option S
  construct limit (pos desired) =
      if leb desired limit then some (sem_init (desired % unsigned_mod)) else none
  construct limit (negsuc n) = none

  -- The loop of `release`, with `update` rounds left.
  unfoldable pub post_all : ℕ → S → Answer Errno × S
  post_all zero s = (done true, s)
  post_all (suc n) s =
      let r = sem_post s in
      let rest = post_all n r.1 in elim r.0 [ success ↦ rest | failure e ↦ (thrown e, r.1) ]

  unfoldable pub release : ℤ → S → Answer Errno × S
  unfolding post_all
  release (pos update) s = post_all update s
  release (negsuc n) s = (done true, s)

  pub acquire : S → Answer Errno × S
  acquire s = let r = sem_wait s in (must r.0, r.1)

  pub try_acquire : S → Bool × S
  try_acquire s = let r = sem_trywait s in (succeeds r.0, r.1)

  -- `now` is what `system_clock::now()` returns.
  unfoldable pub try_acquire_for : ℤ → ℕ → S → Answer Errno × S
  unfolding do_try_acquirewait
  try_acquire_for rel_time now s = do_try_acquirewait (plus rel_time now) s

  -- With a point in time of `system_clock`, and of another clock.
  unfoldable pub try_acquire_until : ℤ → S → Answer Errno × S
  unfolding do_try_acquirewait
  try_acquire_until abs_time s = do_try_acquirewait abs_time s

  unfoldable pub try_acquire_until_of : ℕ → ℕ → ℕ → S → Answer Errno × S
  unfolding do_try_acquirewait
  try_acquire_until_of abs_time sys_now now s =
      do_try_acquirewait (to_system_timepoint abs_time sys_now now) s
