-- ===== src/Fair/Shared/Places.antt =====
-- include/fair_shared_mutex.hpp: `basic_shared_mutex` and `basic_shared_timed_mutex`, used by any number of
-- threads.
use yamc.Common.{ℕ, Bool, true, false, replicate}
use yamc.Threads.{Turn, refused, settle, Action, call, wake, System}
use yamc.Fair.WaitQueue.{Store}
use yamc.Fair.WaitQueue as WaitQueue
use yamc.Fair.Shared.{
  impl_lock, impl_lock_loop, impl_try_lock, impl_unlock, impl_try_lockwait_timeout,
  impl_lock_shared, impl_lock_shared_loop, impl_try_lock_shared, impl_unlock_shared,
  impl_try_lockwait_shared_timeout,
}

-- Outside, in one of the four waits, or between a lock and its `unlock` or `unlock_shared`.
pub data Place : Type 0 where
  outside in_lock in_lock_until in_lock_shared in_lock_shared_until owner shared_owner : Place

-- `try_lock_for` and `try_lock_shared_for` differ from the members that are named here in how they find
-- the deadline.
pub data Method : Type 0 where
  locks try_locks try_locks_until unlocks : Method
  locks_shared try_locks_shared try_locks_shared_until unlocks_shared : Method

abbrev pub granted : Bool → Place
granted true = owner
granted false = outside

abbrev pub granted_shared : Bool → Place
granted_shared true = shared_owner
granted_shared false = outside

-- A thread that holds the lock makes no call but the unlock that fits.
unfoldable pub act : ℕ → Bool → ℕ → Action Method → Store → Place → Turn Store Place
unfolding impl_lock impl_lock_loop impl_try_lock impl_unlock impl_try_lockwait_timeout
    impl_lock_shared impl_lock_shared_loop impl_try_lock_shared impl_unlock_shared
    impl_try_lockwait_shared_timeout
act fuel phased i (call locks) h outside = settle granted in_lock (impl_lock i h)
act fuel phased i (call try_locks) h outside = settle granted outside (impl_try_lock h)
act fuel phased i (call try_locks_until) h outside = settle granted in_lock_until (impl_lock i h)
act fuel phased i (call unlocks) h owner = settle (λ _. outside) owner (impl_unlock fuel phased h)
act fuel phased i (call locks_shared) h outside =
    settle granted_shared in_lock_shared (impl_lock_shared i h)
act fuel phased i (call try_locks_shared) h outside =
    settle granted_shared outside (impl_try_lock_shared h)
act fuel phased i (call try_locks_shared_until) h outside =
    settle granted_shared in_lock_shared_until (impl_lock_shared i h)
act fuel phased i (call unlocks_shared) h shared_owner =
    settle (λ _. outside) shared_owner (impl_unlock_shared h)
act fuel phased i (wake _) h in_lock = settle granted in_lock (impl_lock_loop i h)
act fuel phased i (wake false) h in_lock_until = settle granted in_lock_until (impl_lock_loop i h)
act fuel phased i (wake true) h in_lock_until =
    settle granted in_lock_until (impl_try_lockwait_timeout fuel i h)
act fuel phased i (wake _) h in_lock_shared =
    settle granted_shared in_lock_shared (impl_lock_shared_loop i h)
act fuel phased i (wake false) h in_lock_shared_until =
    settle granted_shared in_lock_shared_until (impl_lock_shared_loop i h)
act fuel phased i (wake true) h in_lock_shared_until =
    settle granted_shared in_lock_shared_until (impl_try_lockwait_shared_timeout i h)
act fuel phased i _ h _ = refused

-- A new mutex, and `n` threads that do not use it yet.
abbrev pub init : ℕ → System Store Place
init n = record { shared = WaitQueue.init; threads = replicate n outside }
