-- ===== src/Alternate/Timed.antt =====
-- include/alternate_mutex.hpp: `yamc::alternate::timed_mutex`.
pub mod Exclusion
use yamc.Common.{
  ℕ, Bool, true, false, Option, some, none, if◌then◌else◌, asserted, ◌==◌, not, replicate,
}
use yamc.Threads.{
  Outcome, returned, waiting, ◌>>=◌, Turn, refused, settle, Action, call, wake, System, silent,
  notify_one,
}

-- `state_`.
pub record Mutex : Type 0 where
  pub state : ℕ

-- The destructor's assertion.
pub destroy : Mutex → Option Mutex
destroy m = asserted (m.state == 0) m

abbrev pub take : Mutex → Outcome Mutex Bool
take m = returned (record { state = 1 }) true silent

-- The loop of `lock` and of `do_try_lockwait`, from its test on, and its entries.
pub lock_loop : Mutex → Outcome Mutex Bool
lock_loop m = if not (m.state == 0) then waiting m silent else take m

pub lock : Mutex → Outcome Mutex Bool
unfolding lock_loop
lock m = lock_loop m

pub do_try_lockwait : Mutex → Outcome Mutex Bool
unfolding lock_loop
do_try_lockwait m = lock_loop m

pub do_try_lockwait_timeout : Mutex → Outcome Mutex Bool
do_try_lockwait_timeout m = if m.state == 0 then take m else returned m false silent

pub try_lock : Mutex → Outcome Mutex Bool
try_lock m = if not (m.state == 0) then returned m false silent else take m

pub unlock : Mutex → Outcome Mutex Bool
unlock m = do t ← asserted (m.state == 1) (record { state = 0 }); returned t true notify_one

pub data Place : Type 0 where
  outside in_lock in_lock_until owner : Place

pub data Method : Type 0 where
  locks try_locks unlocks try_locks_until : Method

abbrev pub granted : Bool → Place
granted true = owner
granted false = outside

-- A thread calls `unlock` only while it owns the mutex, and locks it only while it does not.
unfoldable pub act : Action Method → Mutex → Place → Turn Mutex Place
unfolding lock try_lock unlock lock_loop do_try_lockwait do_try_lockwait_timeout
act (call locks) m outside = settle granted in_lock (lock m)
act (call try_locks) m outside = settle granted outside (try_lock m)
act (call unlocks) m owner = settle (λ _. outside) owner (unlock m)
act (call try_locks_until) m outside = settle granted in_lock_until (do_try_lockwait m)
act (wake _) m in_lock = settle granted in_lock (lock_loop m)
act (wake false) m in_lock_until = settle granted in_lock_until (lock_loop m)
act (wake true) m in_lock_until = settle granted outside (do_try_lockwait_timeout m)
act _ m _ = refused

-- A new mutex, and `n` threads that do not use it yet.
abbrev pub init : ℕ → System Mutex Place
init n = record { shared = record { state = 0 }; threads = replicate n outside }
