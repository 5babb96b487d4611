-- ===== src/Alternate/RecursiveTimed.antt =====
-- include/alternate_mutex.hpp: `yamc::alternate::recursive_timed_mutex`. A `std::thread::id` is a number: 0
-- is that of no thread, and thread `i` has `i + 1`.
pub mod Exclusion
use yamc.Common.{
  ℕ, zero, suc, ◌+◌, ◌-◌, Bool, true, false, Option, some, none, if◌then◌else◌, asserted, ◌==◌,
  ◌&&◌, not, ltb, inc, dec, size_mod, replicate,
}
use yamc.Threads.{
  Outcome, returned, waiting, ◌>>=◌, Turn, refused, settle, Action, call, wake, System, silent,
  notify_one,
}

pub record Mutex : Type 0 where
  pub ncount : ℕ
  pub owner : ℕ

abbrev pub no_thread : ℕ
no_thread = 0

abbrev pub tid : ℕ → ℕ
tid i = i + 1

-- The destructor's assertion.
pub destroy : Mutex → Option Mutex
destroy m = asserted (m.ncount == 0 && m.owner == no_thread) m

-- `++ncount_`, for the owner.
abbrev pub count_up : Mutex → Outcome Mutex Bool
count_up m = returned (record m { ncount = inc size_mod m.ncount }) true silent

-- The end of `lock`, `try_lock` and `do_try_lockwait`.
unfoldable pub take : ℕ → Mutex → Outcome Mutex Bool
take i m = do
  t ← asserted (m.owner == no_thread) (record { ncount = 1; owner = tid i })
  returned t true silent

-- The loop of `lock` and of `do_try_lockwait`, from its test on.
unfoldable pub lock_loop : ℕ → Mutex → Outcome Mutex Bool
unfolding take
lock_loop i m = if not (m.ncount == 0) then waiting m silent else take i m

unfoldable pub lock : ℕ → Mutex → Outcome Mutex Bool
unfolding lock_loop
lock i m = if m.owner == tid i then count_up m else lock_loop i m

unfoldable pub try_lock : ℕ → Mutex → Outcome Mutex Bool
unfolding take
try_lock i m =
    if m.owner == tid i
    then count_up m
    else if m.ncount == 0
    then take i m
    else returned m false silent

-- `--ncount_`, and the end of the ownership at 0.
abbrev pub count_down : Mutex → Outcome Mutex Bool
count_down m =
    let t = record m { ncount = dec size_mod m.ncount } in
    if t.ncount == 0
    then returned (record t { owner = no_thread }) true notify_one
    else returned t true silent

unfoldable pub unlock : ℕ → Mutex → Outcome Mutex Bool
unlock i m = do t ← asserted (ltb 0 m.ncount && m.owner == tid i) m; count_down t

-- The entry of `do_try_lockwait`, and the rest of it after a timeout.
unfoldable pub do_try_lockwait : ℕ → Mutex → Outcome Mutex Bool
unfolding lock_loop
do_try_lockwait i m = if m.owner == tid i then count_up m else lock_loop i m

unfoldable pub do_try_lockwait_timeout : ℕ → Mutex → Outcome Mutex Bool
unfolding take
do_try_lockwait_timeout i m = if m.ncount == 0 then take i m else returned m false silent

-- Where a thread stands: `holds c` when it has taken the mutex `c` times more than it has unlocked it.
pub data Place : Type 0 where
  outside in_lock in_lock_until : Place
  holds : (c : ℕ) → Place

pub data Method : Type 0 where
  locks try_locks unlocks try_locks_until : Method

-- The place after a method that takes the mutex once more, if it returns `true`.
abbrev pub taken : ℕ → Bool → Place
taken c true = holds (c + 1)
taken zero false = outside
taken (suc c) false = holds (suc c)

-- The place after `unlock` by a thread that holds the mutex `c` times.
abbrev pub given : ℕ → Bool → Place
given c b = if c == 1 then outside else holds (c - 1)

-- A thread calls `unlock` only while it holds the mutex, and takes it less than 2 ^ 64 times.
unfoldable pub act : ℕ → Action Method → Mutex → Place → Turn Mutex Place
unfolding lock try_lock unlock lock_loop do_try_lockwait do_try_lockwait_timeout
act i (call locks) s outside = settle (taken 0) in_lock (lock i s)
act i (call try_locks) s outside = settle (taken 0) outside (try_lock i s)
act i (call try_locks_until) s outside = settle (taken 0) in_lock_until (do_try_lockwait i s)
act i (call locks) s (holds c) =
    if ltb (c + 1) size_mod then settle (taken c) in_lock (lock i s) else refused
act i (call try_locks) s (holds c) =
    if ltb (c + 1) size_mod then settle (taken c) outside (try_lock i s) else refused
act i (call try_locks_until) s (holds c) =
    if ltb (c + 1) size_mod then settle (taken c) in_lock_until (do_try_lockwait i s) else refused
act i (call unlocks) s (holds c) = settle (given c) outside (unlock i s)
act i (wake _) s in_lock = settle (taken 0) in_lock (lock_loop i s)
act i (wake false) s in_lock_until = settle (taken 0) in_lock_until (lock_loop i s)
act i (wake true) s in_lock_until = settle (taken 0) outside (do_try_lockwait_timeout i s)
act i _ s _ = refused

-- A new mutex, and `n` threads that do not use it yet.
abbrev pub init : ℕ → System Mutex Place
init n = record { shared = record { ncount = 0; owner = no_thread }; threads = replicate n outside }
