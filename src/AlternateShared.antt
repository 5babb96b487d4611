-- ===== src/AlternateShared.antt =====
-- include/alternate_shared_mutex.hpp: `shared_mutex_base`, `basic_shared_mutex` and
-- `basic_shared_timed_mutex` of `yamc::alternate`, over any readers-writer policy. A method that
-- returns nothing returns `true` here. The clock is the environment's: a wait with a deadline may
-- end by a timeout at any time.
pub mod Sections
pub mod Exclusion
pub mod Wakeups
pub mod Examples
use yamc.Common.{ℕ, replicate, Bool, true, false, Option, some, if◌then◌else◌}
use yamc.Threads.{
  System, Outcome, returned, waiting, ◌>>=◌, Turn, refused, settle, Action, call, wake, silent,
  notify_all,
}
use yamc.RwLock.Policy.{Policy}

module _ {State : Type 0} (P : Policy State) where
  open P use {
    before_wait_wlock, wait_wlock, after_wait_wlock, acquire_wlock, release_wlock, wait_rlock,
    acquire_rlock, release_rlock,
  }

  -- What follows the loop of `lock` and of `do_try_lockwait`.
  lock_enter : State → Outcome State Bool
  lock_enter s = do t ← after_wait_wlock s; u ← acquire_wlock t; returned u true silent

  -- The loop, from its test on.
  pub lock_loop : State → Outcome State Bool
  unfolding lock_enter
  lock_loop s = if wait_wlock s then waiting s silent else lock_enter s

  pub lock : State → Outcome State Bool
  unfolding lock_loop
  lock s = do t ← before_wait_wlock s; lock_loop t

  pub try_lock : State → Outcome State Bool
  try_lock s =
      if wait_wlock s
      then returned s false silent
      else (do t ← acquire_wlock s; returned t true silent)

  pub unlock : State → Outcome State Bool
  unlock s = do t ← release_wlock s; returned t true notify_all

  lock_shared_enter : State → Outcome State Bool
  lock_shared_enter s = do t ← acquire_rlock s; returned t true silent

  pub lock_shared_loop : State → Outcome State Bool
  unfolding lock_shared_enter
  lock_shared_loop s = if wait_rlock s then waiting s silent else lock_shared_enter s

  pub lock_shared : State → Outcome State Bool
  unfolding lock_shared_loop
  lock_shared s = lock_shared_loop s

  pub try_lock_shared : State → Outcome State Bool
  try_lock_shared s =
      if wait_rlock s
      then returned s false silent
      else (do t ← acquire_rlock s; returned t true silent)

  pub unlock_shared : State → Outcome State Bool
  unlock_shared s = do
    (t, last) ← release_rlock s
    returned t true (if last then notify_all else silent)

  -- The entry of `do_try_lockwait`, and the rest of it after a timeout.
  pub do_try_lockwait : State → Outcome State Bool
  unfolding lock_loop
  do_try_lockwait s = do t ← before_wait_wlock s; lock_loop t

  pub do_try_lockwait_timeout : State → Outcome State Bool
  unfolding lock_enter
  do_try_lockwait_timeout s =
      if wait_wlock s then (do t ← after_wait_wlock s; returned t false silent) else lock_enter s

  pub do_try_lock_sharedwait : State → Outcome State Bool
  unfolding lock_shared_loop
  do_try_lock_sharedwait s = lock_shared_loop s

  pub do_try_lock_sharedwait_timeout : State → Outcome State Bool
  unfolding lock_shared_enter
  do_try_lock_sharedwait_timeout s =
      if wait_rlock s then returned s false silent else lock_shared_enter s

-- Where a thread stands: outside, in the wait of a method, or holding the lock.
pub data Place : Type 0 where
  outside : Place
  in_lock in_lock_until : Place
  in_lock_shared in_lock_shared_until : Place
  owner reader : Place

-- `try_lock_for` and `try_lock_until` differ in how they find the deadline.
pub data Method : Type 0 where
  locks try_locks unlocks locks_shared try_locks_shared unlocks_shared : Method
  try_locks_until try_locks_shared_until : Method

abbrev pub granted : Place → Bool → Place
granted p true = p
granted p false = outside

-- A call that the caller's contract forbids is refused: `unlock` by a thread that does not hold the
-- lock, or a second lock by one that does.
pub act : {State : Type 0} → Policy State → Action Method → State → Place → Turn State Place
unfolding lock try_lock unlock lock_shared try_lock_shared unlock_shared lock_loop lock_shared_loop
    do_try_lockwait do_try_lockwait_timeout do_try_lock_sharedwait do_try_lock_sharedwait_timeout
act P (call locks) s outside = settle (granted owner) in_lock (lock P s)
act P (call try_locks) s outside = settle (granted owner) outside (try_lock P s)
act P (call unlocks) s owner = settle (granted outside) owner (unlock P s)
act P (call locks_shared) s outside = settle (granted reader) in_lock_shared (lock_shared P s)
act P (call try_locks_shared) s outside = settle (granted reader) outside (try_lock_shared P s)
act P (call unlocks_shared) s reader = settle (granted outside) reader (unlock_shared P s)
act P (call try_locks_until) s outside = settle (granted owner) in_lock_until (do_try_lockwait P s)
act P (call try_locks_shared_until) s outside =
    settle (granted reader) in_lock_shared_until (do_try_lock_sharedwait P s)
act P (wake _) s in_lock = settle (granted owner) in_lock (lock_loop P s)
act P (wake _) s in_lock_shared = settle (granted reader) in_lock_shared (lock_shared_loop P s)
act P (wake false) s in_lock_until = settle (granted owner) in_lock_until (lock_loop P s)
act P (wake true) s in_lock_until =
    settle (granted owner) in_lock_until (do_try_lockwait_timeout P s)
act P (wake false) s in_lock_shared_until =
    settle (granted reader) in_lock_shared_until (lock_shared_loop P s)
act P (wake true) s in_lock_shared_until =
    settle (granted reader) in_lock_shared_until (do_try_lock_sharedwait_timeout P s)
act P _ s _ = refused

-- A new mutex, and `n` threads that do not use it yet.
abbrev pub init : {State : Type 0} → Policy State → ℕ → System State Place
init P n = record { shared = P.initial; threads = replicate n outside }
