-- ===== src/Checked/Shared.antt =====
-- include/checked_shared_mutex.hpp: `shared_mutex_base`, `basic_shared_mutex` and
-- `basic_shared_timed_mutex` of `yamc::checked`, over any readers-writer policy and any validator, with
-- `YAMC_CHECKED_CALL_ABORT` 0. A section runs on the members of one mutex and on the validator's table; `k`
-- is the address of `this`.
pub mod Members
pub mod Places
pub mod Ends
pub mod Sections
pub mod Turns
pub mod Acts
pub mod Exclusion
pub mod Closed
pub mod Starvation
pub mod Examples
use yamc.Common.{
  ℕ, Bool, true, false, Option, some, none, List, [], ◌∷◌, ◌++◌, if◌then◌else◌, ◌==◌, ◌||◌, not,
  replicate,
}
use yamc.Threads.{
  Outcome, returned, waiting, aborted, ◌>>=◌, Turn, moved, refused, failed, settle, Action, call,
  wake, System, silent, notify_all,
}
use yamc.Fair.WaitQueue.{update}
use yamc.RwLock.Policy.{Policy}
use yamc.Validator.{Validator, contains, remove_elem}
use yamc.Checked.{
  Answer, done, thrown, recursive_lock, deadlock, abandoned_mutex, invalid_unlock, no_thread, tid,
}

-- The members of a mutex, and the table.
pub record Shared (State V : Type 0) : Type 0 where
  pub state : State
  pub e_owner : ℕ
  pub s_owner : List ℕ
  pub table : V

-- `std::vector::empty`.
abbrev pub empty : List ℕ → Bool
empty [] = true
empty (x ∷ xs) = false

module _ {State V : Type 0} (P : Policy State) (W : Validator V) where
  open P use {
    before_wait_wlock, wait_wlock, after_wait_wlock, acquire_wlock, release_wlock, wait_rlock,
    acquire_rlock, release_rlock,
  }
  open W use {ctor, dtor, locked, unlocked, enqueue, dequeue}

  -- The constructors, and the destructors.
  pub shared_mutex : ℕ → V → Shared State V
  shared_mutex k v = record {
    state = P.initial;
    e_owner = no_thread;
    s_owner = [];
    table = ctor k v;
  }

  pub destroy : ℕ → Shared State V → Outcome (Shared State V) Answer
  destroy k s =
      returned (record s { table = dtor k s.table })
        (if not (s.e_owner == no_thread) || not (empty s.s_owner)
          then thrown abandoned_mutex
          else done true)
        silent

  -- The test that each member begins with, and what it throws.
  abbrev pub owns : ℕ → Shared State V → Bool
  owns i s = s.e_owner == tid i || contains s.s_owner (tid i)

  -- The end of `lock` and of `do_try_lockwait`, without and with `after_wait_wlock`.
  pub take : ℕ → ℕ → Shared State V → Outcome (Shared State V) Answer
  take k i s = do
    t ← acquire_wlock s.state
    returned (record s { state = t; e_owner = tid i; table = locked k (tid i) s.table }) (done true)
        silent

  pub enter : ℕ → ℕ → Shared State V → Outcome (Shared State V) Answer
  unfolding take
  enter k i s = do t ← after_wait_wlock s.state; take k i (record s { state = t })

  -- What the loops of `lock` and of `lock_shared` do before they wait.
  pub begin_wait : ℕ → ℕ → Shared State V → Outcome (Shared State V) Answer
  begin_wait k i s = elim (enqueue k (tid i) s.table) [
    | none ↦ aborted
    | some (go_on, t) ↦
        if go_on
        then waiting (record s { table = t }) silent
        else returned (record s { table = t }) (thrown deadlock) silent
  ]

  -- `lock`: its loop, from its test on; what it does first after a wake-up; its entry.
  pub lock_loop : ℕ → ℕ → Shared State V → Outcome (Shared State V) Answer
  unfolding begin_wait enter
  lock_loop k i s = if wait_wlock s.state then begin_wait k i s else enter k i s

  pub lock_wake : ℕ → ℕ → Shared State V → Outcome (Shared State V) Answer
  lock_wake k i s = waiting (record s { table = dequeue k (tid i) s.table }) silent

  pub lock : ℕ → ℕ → Shared State V → Outcome (Shared State V) Answer
  unfolding lock_loop
  lock k i s =
      if owns i s
      then returned s (thrown recursive_lock) silent
      else (do t ← before_wait_wlock s.state; lock_loop k i (record s { state = t }))

  pub try_lock : ℕ → ℕ → Shared State V → Outcome (Shared State V) Answer
  unfolding take
  try_lock k i s =
      if owns i s
      then returned s (thrown recursive_lock) silent
      else if wait_wlock s.state
      then returned s (done false) silent
      else take k i s

  pub unlock : ℕ → ℕ → Shared State V → Outcome (Shared State V) Answer
  unlock k i s = if not (s.e_owner == tid i) then returned s (thrown invalid_unlock) silent else (do
    t ← release_wlock s.state
    returned (record s { state = t; e_owner = no_thread; table = unlocked k (tid i) s.table })
        (done true) notify_all)

  -- The end of `lock_shared` and of `do_try_lock_sharedwait`.
  pub take_shared : ℕ → ℕ → Shared State V → Outcome (Shared State V) Answer
  take_shared k i s = do
    t ← acquire_rlock s.state
    returned
        (record s {
          state = t;
          s_owner = s.s_owner ++ tid i ∷ [];
          table = locked k (tid i) s.table;
        })
        (done true) silent

  -- `lock_shared`: its loop, from its test on; what it does first after a wake-up; its entry.
  pub lock_shared_loop : ℕ → ℕ → Shared State V → Outcome (Shared State V) Answer
  unfolding begin_wait take_shared
  lock_shared_loop k i s = if wait_rlock s.state then begin_wait k i s else take_shared k i s

  pub lock_shared_wake : ℕ → ℕ → Shared State V → Outcome (Shared State V) Answer
  lock_shared_wake k i s = waiting (record s { table = dequeue k (tid i) s.table }) silent

  pub lock_shared : ℕ → ℕ → Shared State V → Outcome (Shared State V) Answer
  unfolding lock_shared_loop
  lock_shared k i s =
      if owns i s then returned s (thrown recursive_lock) silent else lock_shared_loop k i s

  pub try_lock_shared : ℕ → ℕ → Shared State V → Outcome (Shared State V) Answer
  unfolding take_shared
  try_lock_shared k i s =
      if owns i s
      then returned s (thrown recursive_lock) silent
      else if wait_rlock s.state
      then returned s (done false) silent
      else take_shared k i s

  pub unlock_shared : ℕ → ℕ → Shared State V → Outcome (Shared State V) Answer
  unlock_shared k i s =
      if not (contains s.s_owner (tid i)) then returned s (thrown invalid_unlock) silent else (do
        (t, last) ← release_rlock s.state
        returned
            (record s {
              state = t;
              s_owner = remove_elem s.s_owner (tid i);
              table = unlocked k (tid i) s.table;
            })
            (done true) (if last then notify_all else silent))

  -- `do_try_lockwait`: its loop, from its test on; its entry; and the rest of it after a timeout.
  pub try_lock_loop : ℕ → ℕ → Shared State V → Outcome (Shared State V) Answer
  unfolding enter
  try_lock_loop k i s = if wait_wlock s.state then waiting s silent else enter k i s

  pub do_try_lockwait : ℕ → ℕ → Shared State V → Outcome (Shared State V) Answer
  unfolding try_lock_loop
  do_try_lockwait k i s =
      if owns i s
      then returned s (thrown recursive_lock) silent
      else (do t ← before_wait_wlock s.state; try_lock_loop k i (record s { state = t }))

  pub do_try_lockwait_timeout : ℕ → ℕ → Shared State V → Outcome (Shared State V) Answer
  unfolding enter
  do_try_lockwait_timeout k i s =
      if wait_wlock s.state
      then (do t ← after_wait_wlock s.state; returned (record s { state = t }) (done false) silent)
      else enter k i s

  -- `do_try_lock_sharedwait`, likewise.
  pub try_lock_shared_loop : ℕ → ℕ → Shared State V → Outcome (Shared State V) Answer
  unfolding take_shared
  try_lock_shared_loop k i s = if wait_rlock s.state then waiting s silent else take_shared k i s

  pub do_try_lock_sharedwait : ℕ → ℕ → Shared State V → Outcome (Shared State V) Answer
  unfolding try_lock_shared_loop
  do_try_lock_sharedwait k i s =
      if owns i s then returned s (thrown recursive_lock) silent else try_lock_shared_loop k i s

  pub do_try_lock_sharedwait_timeout : ℕ → ℕ → Shared State V → Outcome (Shared State V) Answer
  unfolding take_shared
  do_try_lock_sharedwait_timeout k i s =
      if wait_rlock s.state then returned s (done false) silent else take_shared k i s
