-- ===== src/Posix/Mutex.antt =====
-- include/posix_native_mutex.hpp: `native_mutex`, `native_recursive_mutex` and `rwlock`, with timeouts.
use yamc.Common.{ℕ, Bool, ℤ, plus}
use yamc.Posix.{Code, succeeds, Timespec, abs_timeout}

-- The calls on a `pthread_mutex_t`, of either type, or those that take a `pthread_rwlock_t` one way.
pub record Pthread (S : Type 0) : Type 0 where
  pub to_time_t : ℤ → ℤ
  pub do_lock : S → Code × S
  pub do_trylock : S → Code × S
  pub do_timedlock : Timespec → S → Code × S
  pub do_unlock : S → Code × S

module _ {S : Type 0} (P : Pthread S) where
  open P use {to_time_t, do_lock, do_trylock, do_timedlock, do_unlock}

  abbrev pub tested : Code × S → Bool × S
  tested (c, s) = (succeeds c, s)

  unfoldable pub do_try_lockwait : ℤ → S → Bool × S
  do_try_lockwait tp s = tested (do_timedlock (abs_timeout to_time_t tp) s)

  -- What the calls return is not looked at.
  pub lock : S → S
  lock s = (do_lock s).1

  pub unlock : S → S
  unlock s = (do_unlock s).1

  pub try_lock : S → Bool × S
  try_lock s = tested (do_trylock s)

  -- `now` is what `system_clock::now()` returns.
  unfoldable pub try_lock_for : ℤ → ℕ → S → Bool × S
  unfolding do_try_lockwait
  try_lock_for rel_time now s = do_try_lockwait (plus rel_time now) s

  pub try_lock_until : ℤ → S → Bool × S
  unfolding do_try_lockwait
  try_lock_until abs_time s = do_try_lockwait abs_time s
