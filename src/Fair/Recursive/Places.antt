-- ===== src/Fair/Recursive/Places.antt =====
-- include/fair_mutex.hpp: threads at a `recursive_mutex`.
use yamc.Common.{
  ℕ, zero, suc, ◌+◌, ◌-◌, Bool, true, false, if◌then◌else◌, ◌==◌, ltb, size_mod, replicate,
}
use yamc.Threads.{Turn, refused, settle, Action, call, wake, System}
use yamc.Fair.Recursive.{Mutex, no_thread, lock, lock_loop, try_lock, unlock}

-- Where a thread stands: in the loop of `lock` with its ticket, or `holds c` when it has taken the mutex `c`
-- times more than it has unlocked it.
pub data Place : Type 0 where
  outside : Place
  in_lock : (request : ℕ) → Place
  holds : (c : ℕ) → Place

pub data Method : Type 0 where
  locks try_locks unlocks : Method

-- The place after a method that takes the mutex once more, if it returns `true`.
abbrev pub taken : ℕ → Bool → Place
taken c true = holds (c + 1)
taken zero false = outside
taken (suc c) false = holds (suc c)

-- The place after `unlock` by a thread that holds the mutex `c` times.
abbrev pub given : ℕ → Bool → Place
given c b = if c == 1 then outside else holds (c - 1)

-- A thread calls `unlock` only while it holds the mutex, and takes it less than 2 ^ 64 times.
unfoldable pub act : ℕ → Action Method → Mutex → Place → Turn Mutex Place
unfolding lock lock_loop try_lock unlock
act i (call locks) s outside = settle (taken 0) (in_lock s.next) (lock i s)
act i (call try_locks) s outside = settle (taken 0) outside (try_lock i s)
act i (call locks) s (holds c) =
    if ltb (c + 1) size_mod then settle (taken c) (in_lock s.next) (lock i s) else refused
act i (call try_locks) s (holds c) =
    if ltb (c + 1) size_mod then settle (taken c) outside (try_lock i s) else refused
act i (call unlocks) s (holds c) = settle (given c) outside (unlock i s)
act i (wake _) s (in_lock request) = settle (taken 0) (in_lock request) (lock_loop i request s)
act i _ s _ = refused

-- A new mutex, and `n` threads that do not use it yet.
abbrev pub init : ℕ → System Mutex Place
init n = record {
  shared = record { next = 0; curr = 0; ncount = 0; owner = no_thread };
  threads = replicate n outside;
}
