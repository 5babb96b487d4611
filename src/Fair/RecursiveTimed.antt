-- ===== src/Fair/RecursiveTimed.antt =====
-- include/fair_mutex.hpp: `yamc::fair::recursive_timed_mutex`, an owner and a count over `timed_mutex_impl`.
-- A `std::thread::id` is a number: 0 is that of no thread, and thread `i` has `i + 1`.
pub mod Turns
pub mod Exclusion
pub mod Examples
use yamc.Common.{
  ℕ, zero, suc, ◌+◌, ◌-◌, Bool, true, false, Option, some, none, if◌then◌else◌, asserted, ◌==◌,
  ◌&&◌, ltb, inc, dec, size_mod, replicate,
}
use yamc.Threads.{
  Outcome, returned, waiting, aborted, ◌>>=◌, Turn, refused, settle, Action, call, wake, System,
  silent,
}
use yamc.Fair.WaitQueue.{Store}
use yamc.Fair.WaitQueue as WaitQueue
use yamc.Fair.Timed.{
  impl_lock, impl_lock_loop, impl_try_lock, impl_unlock, impl_try_lockwait_timeout,
}
use yamc.Fair.Recursive.{no_thread, tid}

pub record Mutex : Type 0 where
  pub ncount : ℕ
  pub owner : ℕ
  pub impl : Store

-- `++ncount_`, for a thread that owns the mutex.
abbrev pub count_up : Mutex → Outcome Mutex Bool
count_up m = do
  t ← asserted (ltb 0 m.ncount) (record m { ncount = inc size_mod m.ncount })
  returned t true silent

-- The end of `lock`, `try_lock` and `try_lock_until`, when the section of `impl_` ends: the thread becomes
-- the owner if that returns `true`.
abbrev pub after_impl : ℕ → Mutex → Outcome Store Bool → Outcome Mutex Bool
after_impl i m (returned h true n) =
    returned (record { ncount = 1; owner = tid i; impl = h }) true n
after_impl i m (returned h false n) = returned (record m { impl = h }) false n
after_impl i m (waiting h n) = waiting (record m { impl = h }) n
after_impl i m aborted = aborted

pub lock : ℕ → Mutex → Outcome Mutex Bool
lock i m = if m.owner == tid i then count_up m else after_impl i m (impl_lock i m.impl)

-- A wake-up in `lock` or in `try_lock_until`, without a timeout.
pub lock_wake : ℕ → Mutex → Outcome Mutex Bool
lock_wake i m = after_impl i m (impl_lock_loop i m.impl)

pub try_lock : ℕ → Mutex → Outcome Mutex Bool
try_lock i m = if m.owner == tid i then count_up m else after_impl i m (impl_try_lock m.impl)

-- `--ncount_`, and the end of the ownership at 0.
abbrev pub count_down : Mutex → Outcome Mutex Bool
count_down m =
    let t = record m { ncount = dec size_mod m.ncount } in
    if t.ncount == 0
    then elim (impl_unlock t.impl) [
      | returned h b n ↦ returned (record t { owner = no_thread; impl = h }) b n
      | waiting h n ↦ waiting (record t { impl = h }) n
      | aborted ↦ aborted
    ]
    else returned t true silent

pub unlock : ℕ → Mutex → Outcome Mutex Bool
unlock i m = do t ← asserted (ltb 0 m.ncount && m.owner == tid i) m; count_down t

-- `try_lock_until` enters `impl_` as `lock` does. This is the rest of it after a timeout.
pub try_lock_until : ℕ → Mutex → Outcome Mutex Bool
try_lock_until i m = if m.owner == tid i then count_up m else after_impl i m (impl_lock i m.impl)

pub try_lock_until_timeout : ℕ → Mutex → Outcome Mutex Bool
try_lock_until_timeout i m = after_impl i m (impl_try_lockwait_timeout i m.impl)

-- Where a thread stands: `holds c` when it has taken the mutex `c` times more than it has unlocked it.
pub data Place : Type 0 where
  outside in_lock in_lock_until : Place
  holds : (c : ℕ) → Place

-- `try_lock_for` calls `try_lock_until`.
pub data Method : Type 0 where
  locks try_locks unlocks try_locks_until : Method

-- The place after a method that takes the mutex once more, if it returns `true`.
abbrev pub taken : ℕ → Bool → Place
taken c true = holds (c + 1)
taken zero false = outside
taken (suc c) false = holds (suc c)

-- The place after `unlock` by a thread that holds the mutex `c` times.
abbrev pub given : ℕ → Bool → Place
given c b = if c == 1 then outside else holds (c - 1)

-- A thread calls `unlock` only while it holds the mutex, and takes it less than 2 ^ 64 times.
pub act : ℕ → Action Method → Mutex → Place → Turn Mutex Place
unfolding lock try_lock unlock lock_wake try_lock_until try_lock_until_timeout
act i (call locks) s outside = settle (taken 0) in_lock (lock i s)
act i (call try_locks) s outside = settle (taken 0) outside (try_lock i s)
act i (call try_locks_until) s outside = settle (taken 0) in_lock_until (try_lock_until i s)
act i (call locks) s (holds c) =
    if ltb (c + 1) size_mod then settle (taken c) in_lock (lock i s) else refused
act i (call try_locks) s (holds c) =
    if ltb (c + 1) size_mod then settle (taken c) outside (try_lock i s) else refused
act i (call try_locks_until) s (holds c) =
    if ltb (c + 1) size_mod then settle (taken c) in_lock_until (try_lock_until i s) else refused
act i (call unlocks) s (holds c) = settle (given c) outside (unlock i s)
act i (wake _) s in_lock = settle (taken 0) in_lock (lock_wake i s)
act i (wake false) s in_lock_until = settle (taken 0) in_lock_until (lock_wake i s)
act i (wake true) s in_lock_until = settle (taken 0) in_lock_until (try_lock_until_timeout i s)
act i _ s _ = refused

-- A new mutex, and `n` threads that do not use it yet.
abbrev pub init : ℕ → System Mutex Place
init n = record {
  shared = record { ncount = 0; owner = no_thread; impl = WaitQueue.init };
  threads = replicate n outside;
}
