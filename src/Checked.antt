-- ===== src/Checked.antt =====
-- include/checked_mutex.hpp: `mutex_base`, `mutex` and `timed_mutex` of `yamc::checked`, over any
-- validator, with `YAMC_CHECKED_CALL_ABORT` 0: a violated requirement throws. The validator's table is
-- shared by all mutexes, so the state is that of all of them; `k` is the address of `this`.
pub mod Table
pub mod Sections
pub mod Deadlocks
pub mod Recursive
pub mod Shared
pub mod Examples
use yamc.Common.{
  List, [], ◌∷◌, ℕ, ◌+◌, Bool, true, false, Option, some, none, if◌then◌else◌, ◌==◌, not, replicate,
}
use yamc.Threads.{
  Outcome, returned, waiting, aborted, Turn, refused, failed, settle, Action, call, wake, System,
  silent, notify_all,
}
use yamc.Validator.{Validator}
use yamc.Fair.WaitQueue.{update}

-- A `std::system_error`, by its message: the first three have the code `resource_deadlock_would_occur`,
-- the last `operation_not_permitted`.
pub data Error : Type 0 where
  recursive_lock deadlock abandoned_mutex invalid_unlock : Error

-- How a method ends: it returns, `true` if it returns nothing, or throws.
pub data Answer : Type 0 where
  done : Bool → Answer
  thrown : Error → Answer

-- `std::thread::id()`, and the identifier of thread `i`.
abbrev pub no_thread : ℕ
no_thread = 0

abbrev pub tid : ℕ → ℕ
tid i = i + 1

-- `owner_` of every mutex, and the table.
pub record Mutexes (V : Type 0) : Type 0 where
  pub owner : ℕ → ℕ
  pub table : V

module _ {V : Type 0} (W : Validator V) where
  open W use {ctor, dtor, locked, unlocked, enqueue, dequeue}

  -- The constructor of `mutex` and of `timed_mutex`, and the destructor: it throws if the mutex is owned.
  pub mutex : ℕ → Mutexes V → Mutexes V
  mutex k s = record { owner = update s.owner k no_thread; table = ctor k s.table }

  pub destroy : ℕ → Mutexes V → Outcome (Mutexes V) Answer
  destroy k s =
      returned (record s { table = dtor k s.table })
        (if s.owner k == no_thread then done true else thrown abandoned_mutex) silent

  -- The end of `lock`, `try_lock` and `do_try_lockwait`.
  pub take : ℕ → ℕ → Mutexes V → Outcome (Mutexes V) Answer
  take k i s =
      returned (record { owner = update s.owner k (tid i); table = locked k (tid i) s.table })
        (done true) silent

  -- The loop of `lock`, from its test on.
  pub lock_loop : ℕ → ℕ → Mutexes V → Outcome (Mutexes V) Answer
  unfolding take
  lock_loop k i s =
      if s.owner k == no_thread then take k i s else elim (enqueue k (tid i) s.table) [
        | none ↦ aborted
        | some (go_on, t) ↦
            if go_on
            then waiting (record s { table = t }) silent
            else returned (record s { table = t }) (thrown deadlock) silent
      ]

  -- A wake-up in it, up to that test: other threads may use the table before it.
  pub lock_wake : ℕ → ℕ → Mutexes V → Outcome (Mutexes V) Answer
  lock_wake k i s = waiting (record s { table = dequeue k (tid i) s.table }) silent

  pub lock : ℕ → ℕ → Mutexes V → Outcome (Mutexes V) Answer
  unfolding lock_loop
  lock k i s =
      if s.owner k == tid i then returned s (thrown recursive_lock) silent else lock_loop k i s

  pub try_lock : ℕ → ℕ → Mutexes V → Outcome (Mutexes V) Answer
  unfolding take
  try_lock k i s =
      if s.owner k == tid i
      then returned s (thrown recursive_lock) silent
      else if not (s.owner k == no_thread)
      then returned s (done false) silent
      else take k i s

  pub unlock : ℕ → ℕ → Mutexes V → Outcome (Mutexes V) Answer
  unlock k i s =
      if not (s.owner k == tid i)
      then returned s (thrown invalid_unlock) silent
      else returned
          (record { owner = update s.owner k no_thread; table = unlocked k (tid i) s.table })
          (done true) notify_all

  -- `do_try_lockwait`: its loop, from its test on; its entry; and the rest of it after a timeout.
  pub try_lock_loop : ℕ → ℕ → Mutexes V → Outcome (Mutexes V) Answer
  unfolding take
  try_lock_loop k i s = if not (s.owner k == no_thread) then waiting s silent else take k i s

  pub do_try_lockwait : ℕ → ℕ → Mutexes V → Outcome (Mutexes V) Answer
  unfolding try_lock_loop
  do_try_lockwait k i s =
      if s.owner k == tid i then returned s (thrown recursive_lock) silent else try_lock_loop k i s

  pub do_try_lockwait_timeout : ℕ → ℕ → Mutexes V → Outcome (Mutexes V) Answer
  unfolding take
  do_try_lockwait_timeout k i s =
      if s.owner k == no_thread then take k i s else returned s (done false) silent

-- Where a thread stands: outside, also just after a `lock` that has thrown `deadlock`; waiting in `lock` or
-- `try_lock_until` of a mutex; or woken up in `lock`, before its test. Other threads may take turns at the
-- same mutex then, which its `mtx_` forbids them: this adds runs to those of the program.
pub data Place : Type 0 where
  outside reported : Place
  in_lock in_lock_until woken : (k : ℕ) → Place

pub data Method : Type 0 where
  locks try_locks unlocks try_locks_until : (k : ℕ) → Method

abbrev pub after_lock : Answer → Place
after_lock (thrown deadlock) = reported
after_lock _ = outside

-- Any member may be called by any thread that is in no wait: misuse throws.
pub called : {V : Type 0} → Validator V → ℕ → Method → Mutexes V → Turn (Mutexes V) Place
unfolding lock try_lock unlock lock_loop do_try_lockwait try_lock_loop
called W i (locks k) s = settle after_lock (in_lock k) (lock W k i s)
called W i (try_locks k) s = settle (λ _. outside) outside (try_lock W k i s)
called W i (unlocks k) s = settle (λ _. outside) outside (unlock W k i s)
called W i (try_locks_until k) s = settle (λ _. outside) (in_lock_until k) (do_try_lockwait W k i s)

pub act :
    {V : Type 0} → Validator V → ℕ → Action Method → Mutexes V → Place → Turn (Mutexes V) Place
unfolding called lock_wake lock_loop try_lock_loop do_try_lockwait_timeout
act W i (call m) s outside = called W i m s
act W i (call m) s reported = called W i m s
act W i (wake _) s (in_lock k) = settle after_lock (woken k) (lock_wake W k i s)
act W i (wake _) s (woken k) = settle after_lock (in_lock k) (lock_loop W k i s)
act W i (wake false) s (in_lock_until k) =
    settle (λ _. outside) (in_lock_until k) (try_lock_loop W k i s)
act W i (wake true) s (in_lock_until k) =
    settle (λ _. outside) (in_lock_until k) (do_try_lockwait_timeout W k i s)
act W i _ s _ = refused

-- Mutexes constructed at the addresses in a list, and `n` threads.
pub construct : {V : Type 0} → Validator V → V → List ℕ → Mutexes V
unfolding mutex
construct W v [] = record { owner = λ k. no_thread; table = v }
construct W v (k ∷ ks) = mutex W k (construct W v ks)

pub init : {V : Type 0} → Validator V → V → List ℕ → ℕ → System (Mutexes V) Place
unfolding construct
init W v ks n = record { shared = construct W v ks; threads = replicate n outside }
