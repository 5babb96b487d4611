-- ===== src/Checked/Recursive.antt =====
-- include/checked_mutex.hpp: `recursive_mutex_base`, `recursive_mutex` and `recursive_timed_mutex` of
-- `yamc::checked`, over any validator, with `YAMC_CHECKED_CALL_ABORT` 0. The state is that of all such
-- mutexes and the validator's table; `k` is the address of `this`.
pub mod Agreement
pub mod Examples
use yamc.Common.{
  ℕ, ◌+◌, Bool, true, false, Option, some, none, if◌then◌else◌, asserted, ◌==◌, ◌&&◌, ◌||◌, not,
  ltb, inc, dec, size_mod,
}
use yamc.Threads.{Outcome, returned, waiting, aborted, ◌>>=◌, silent, notify_all}
use yamc.Fair.WaitQueue.{update}
use yamc.Validator.{Validator}
use yamc.Checked.{
  Answer, done, thrown, Error, deadlock, abandoned_mutex, invalid_unlock, no_thread, tid,
}

-- `ncount_` and `owner_` of every mutex, and the table.
pub record Mutexes (V : Type 0) : Type 0 where
  pub ncount : ℕ → ℕ
  pub owner : ℕ → ℕ
  pub table : V

module _ {V : Type 0} (W : Validator V) where
  open W use {ctor, dtor, locked, unlocked, enqueue, dequeue}

  -- The constructor of `recursive_mutex` and of `recursive_timed_mutex`, and the destructor.
  pub recursive_mutex : ℕ → Mutexes V → Mutexes V
  recursive_mutex k s = record {
    ncount = update s.ncount k 0;
    owner = update s.owner k no_thread;
    table = ctor k s.table;
  }

  pub destroy : ℕ → Mutexes V → Outcome (Mutexes V) Answer
  destroy k s =
      returned (record s { table = dtor k s.table })
        (if not (s.ncount k == 0) || not (s.owner k == no_thread)
          then thrown abandoned_mutex
          else done true)
        silent

  -- `++ncount_`, for the owner.
  abbrev pub count_up : ℕ → Mutexes V → Outcome (Mutexes V) Answer
  count_up k s =
      returned (record s { ncount = update s.ncount k (inc size_mod (s.ncount k)) }) (done true)
        silent

  -- The end of `lock`, `try_lock` and `do_try_lockwait`.
  pub take : ℕ → ℕ → Mutexes V → Outcome (Mutexes V) Answer
  take k i s = do
    t ← asserted (s.owner k == no_thread) (record {
      ncount = update s.ncount k 1;
      owner = update s.owner k (tid i);
      table = locked k (tid i) s.table;
    })
    returned t (done true) silent

  -- The loop of `lock`, from its test on.
  pub lock_loop : ℕ → ℕ → Mutexes V → Outcome (Mutexes V) Answer
  unfolding take
  lock_loop k i s =
      if not (s.ncount k == 0)
      then elim (enqueue k (tid i) s.table) [
        | none ↦ aborted
        | some (go_on, t) ↦
            if go_on
            then waiting (record s { table = t }) silent
            else returned (record s { table = t }) (thrown deadlock) silent
      ]
      else take k i s

  -- What it does first after a wake-up, before it goes on with its test.
  pub lock_wake : ℕ → ℕ → Mutexes V → Outcome (Mutexes V) Answer
  lock_wake k i s = waiting (record s { table = dequeue k (tid i) s.table }) silent

  pub lock : ℕ → ℕ → Mutexes V → Outcome (Mutexes V) Answer
  unfolding lock_loop
  lock k i s = if s.owner k == tid i then count_up k s else lock_loop k i s

  pub try_lock : ℕ → ℕ → Mutexes V → Outcome (Mutexes V) Answer
  unfolding take
  try_lock k i s =
      if s.owner k == tid i
      then count_up k s
      else if s.ncount k == 0
      then take k i s
      else returned s (done false) silent

  -- `--ncount_`, and the end of the ownership at 0.
  abbrev pub count_down : ℕ → ℕ → Mutexes V → Outcome (Mutexes V) Answer
  count_down k i s =
      let c : ℕ = dec size_mod (s.ncount k) in
      if c == 0
      then returned
          (record {
            ncount = update s.ncount k c;
            owner = update s.owner k no_thread;
            table = unlocked k (tid i) s.table;
          })
          (done true) notify_all
      else returned (record s { ncount = update s.ncount k c }) (done true) silent

  pub unlock : ℕ → ℕ → Mutexes V → Outcome (Mutexes V) Answer
  unlock k i s =
      if not (s.owner k == tid i)
      then returned s (thrown invalid_unlock) silent
      else (do t ← asserted (ltb 0 (s.ncount k)) s; count_down k i t)

  -- `do_try_lockwait`: its loop, from its test on; its entry; and the rest of it after a timeout.
  pub try_lock_loop : ℕ → ℕ → Mutexes V → Outcome (Mutexes V) Answer
  unfolding take
  try_lock_loop k i s = if not (s.ncount k == 0) then waiting s silent else take k i s

  pub do_try_lockwait : ℕ → ℕ → Mutexes V → Outcome (Mutexes V) Answer
  unfolding try_lock_loop
  do_try_lockwait k i s = if s.owner k == tid i then count_up k s else try_lock_loop k i s

  pub do_try_lockwait_timeout : ℕ → ℕ → Mutexes V → Outcome (Mutexes V) Answer
  unfolding take
  do_try_lockwait_timeout k i s =
      if s.ncount k == 0 then take k i s else returned s (done false) silent

-- What a thread may run at a mutex: a member, or a part of one after a wake-up or a timeout. Between the two
-- parts of `lock` after a wake-up, threads at other mutexes may change the table.
pub data Section : Type 0 where
  locks lock_wakes lock_goes_on try_locks unlocks : Section
  waits_until wakes_until times_out : Section

pub run : {V : Type 0} → Validator V → Section → ℕ → ℕ → Mutexes V → Outcome (Mutexes V) Answer
unfolding lock lock_wake lock_loop try_lock unlock do_try_lockwait try_lock_loop
    do_try_lockwait_timeout
run W locks k i s = lock W k i s
run W lock_wakes k i s = lock_wake W k i s
run W lock_goes_on k i s = lock_loop W k i s
run W try_locks k i s = try_lock W k i s
run W unlocks k i s = unlock W k i s
run W waits_until k i s = do_try_lockwait W k i s
run W wakes_until k i s = try_lock_loop W k i s
run W times_out k i s = do_try_lockwait_timeout W k i s
