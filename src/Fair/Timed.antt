-- ===== src/Fair/Timed.antt =====
-- include/fair_mutex.hpp: `timed_mutex_impl` and `timed_mutex`, on the wait queue. A method that returns
-- nothing returns `true` here.
pub mod Moves
pub mod Turns
pub mod Lines
pub mod Safety
pub mod Examples
use yamc.Common.{ℕ, Bool, true, false, Option, some, none, if◌then◌else◌, ◌==◌, asserted, replicate}
use yamc.Threads.{
  Outcome, returned, waiting, ◌>>=◌, Turn, refused, settle, Action, call, wake, System, silent,
  notify_all,
}
use yamc.Fair.WaitQueue.{
  Store, queue, locked, request, wq_empty, wq_push_back, wq_erase, wq_pop_front, wq_replace_front,
}
use yamc.Fair.WaitQueue as WaitQueue

-- The loop of `impl_lock` and of `impl_try_lockwait`, from its test on.
pub impl_lock_loop : ℕ → Store → Outcome Store Bool
impl_lock_loop i h =
    if h.next queue == request i
    then (do g ← wq_replace_front locked h; returned g true silent)
    else waiting h silent

pub impl_lock : ℕ → Store → Outcome Store Bool
unfolding impl_lock_loop
impl_lock i h =
    if wq_empty h
    then returned (wq_push_back locked h) true silent
    else impl_lock_loop i (wq_push_back (request i) h)

pub impl_try_lock : Store → Outcome Store Bool
impl_try_lock h =
    if wq_empty h then returned (wq_push_back locked h) true silent else returned h false silent

pub impl_unlock : Store → Outcome Store Bool
impl_unlock h = do
  g ← asserted (h.next queue == locked) h
  returned (wq_pop_front g) true notify_all

-- `impl_try_lockwait` after a timeout.
pub impl_try_lockwait_timeout : ℕ → Store → Outcome Store Bool
impl_try_lockwait_timeout i h =
    if h.next queue == request i
    then (do g ← wq_replace_front locked h; returned g true silent)
    else returned (wq_erase (request i) h) false silent

-- Outside, in the wait of `lock` or of `try_lock_until`, or between a lock and `unlock`.
pub data Place : Type 0 where
  outside in_lock in_lock_until owner : Place

-- `try_lock_for` and `try_lock_until` differ in how they find the deadline.
pub data Method : Type 0 where
  locks try_locks try_locks_until unlocks : Method

abbrev pub granted : Bool → Place
granted true = owner
granted false = outside

unfoldable pub act : ℕ → Action Method → Store → Place → Turn Store Place
unfolding impl_lock impl_try_lock impl_unlock impl_lock_loop impl_try_lockwait_timeout
act i (call locks) h outside = settle granted in_lock (impl_lock i h)
act i (call try_locks) h outside = settle granted outside (impl_try_lock h)
act i (call try_locks_until) h outside = settle granted in_lock_until (impl_lock i h)
act i (call unlocks) h owner = settle (λ _. outside) owner (impl_unlock h)
act i (wake _) h in_lock = settle granted in_lock (impl_lock_loop i h)
act i (wake false) h in_lock_until = settle granted in_lock_until (impl_lock_loop i h)
act i (wake true) h in_lock_until = settle granted in_lock_until (impl_try_lockwait_timeout i h)
act i _ h _ = refused

-- A new mutex, and `n` threads that do not use it yet.
abbrev pub init : ℕ → System Store Place
init n = record { shared = WaitQueue.init; threads = replicate n outside }
