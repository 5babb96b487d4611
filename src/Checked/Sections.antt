-- ===== src/Checked/Sections.antt =====
-- include/checked_mutex.hpp: each turn of a thread, over the deadlock validator. Either `lock` throws
-- `deadlock`, or the table stays free of cycles and fits the place of every thread.
use yamc.Common.{
  Bool-cases, ℕ, ◌≡◌, ◌≢◌, refl, Option, none, some, Bool, true, false, ◌⊎◌, inl, inr,
  if◌then◌else◌, ◌==◌, arith, subst, sym,
}
use yamc.Threads.{
  aborted, waiting, returned, silent, Turn, moved, refused, failed, settle, Action, call, wake,
}
use yamc.Validator.{
  Validator, add_waiter, Table, deadlock, enqueue, dequeue, locked, unlocked, push_waiter,
  add_owner, remove_owner,
}
use yamc.Validator.WaitsFor.{Waits, Acyclic}
use yamc.Validator.Cycles.{enqueue-Acyclic}
use yamc.Validator.Fuel.{enqueue_monotone}
use yamc.Validator.Waiters.{
  SameFor, add_waiter-SameFor, remove_waiter-SameFor, In-snoc_self, Waits-remove_waiter,
  WaitsOff-Waits, WaitsOff-change_self, entry_of, entry_of-change,
}
use yamc.Checked.{
  Error, Mutexes, Place, Answer, outside, reported, in_lock, in_lock_until, woken, called, tid,
  no_thread, take, lock_loop, lock_wake, lock, try_lock, unlock, try_lock_loop, do_try_lockwait,
  do_try_lockwait_timeout, act, after_lock, Method, locks, try_locks, unlocks, try_locks_until,
  done, thrown,
}
use yamc.Checked.Table.{
  Sound, Fits, owners-SameFor, dequeue-Sound, push_waiter-Sound, locked-Sound, unlocked-Sound,
}

-- What thread `i` leaves where the table was `m`: it has reported a deadlock, or all is well.
abbrev pub Kept : ℕ → Table → Mutexes Table → Place → Type 0
Kept i m s p =
    (p ≡ reported)
    ⊎ (Sound s
        × Fits i p s.table.mutexmap
        × ((j : ℕ) → j ≢ i → SameFor (tid j) m.mutexmap s.table.mutexmap))

abbrev pub TurnKept : ℕ → Table → Turn (Mutexes Table) Place → Type 0
TurnKept i m (moved s p n) = Kept i m s p
TurnKept i m refused = Unit {0}
TurnKept i m failed = Unit {0}

tid_ne : (i j : ℕ) → j ≢ i → tid j ≢ tid i
tid_ne i j ne e = ne (omega arith)

SameFor-refl : (w : ℕ) (s : Mutexes Table) → SameFor w s.table.mutexmap s.table.mutexmap
SameFor-refl w s = ((λ v. v), (λ k v. v), λ k v. v)

self : (n : ℕ) → (n == n) ≡ true
self n = ground arith

module _ (fuel k i : ℕ) where
  abbrev W : Validator Table
  W = deadlock fuel

  -- A thread that waits for nothing.
  module _ (s : Mutexes Table) (v : Sound s) (free : Waits s.table.mutexmap (tid i) → ⊥) where
    stays : (p : Place) → Fits i p s.table.mutexmap → Kept i s.table s p
    stays p f = inr (v, f, λ j ne. SameFor-refl (tid j) s)

    take-TurnKept :
        (next : Answer → Place) (w : Place)
        → next (done true) ≡ outside
        → TurnKept i s.table (settle next w (take W k i s))
    unfolding take deadlock locked
    take-TurnKept next w e =
        let same = λ (u : ℕ).
          owners-SameFor u k (add_owner (tid i)) s.table.mutexmap (λ e. refl) (λ e. refl) in
        inr (
          locked-Sound k i s v free,
          subst (λ p. Fits i p (locked k (tid i) s.table).mutexmap) (sym e)
              (λ u. free ((same (tid i)).0 u)),
          λ j ne. same (tid j),
        )

    waits-Kept :
        Acyclic (push_waiter k (tid i) s.table).mutexmap
        → Kept i s.table (record s { table = push_waiter k (tid i) s.table }) (in_lock k)
    waits-Kept a = inr (
      push_waiter-Sound k i s v a,
      (
        rw (entry_of-change k k (add_waiter (tid i)) s.table.mutexmap (λ e. refl), self k)
            (In-snoc_self (tid i) (entry_of k s.table.mutexmap).waiters),
        λ u. free (
            WaitsOff-Waits k s.table.mutexmap (tid i)
              (WaitsOff-change_self (tid i) k (add_waiter (tid i)) s.table.mutexmap (λ e. refl) u)),
      ),
      λ j ne. add_waiter-SameFor (tid j) (tid i) (tid_ne i j ne) k s.table.mutexmap,
    )

    enqueue-Kept :
        (b : Bool) (t : Table)
        → enqueue fuel k (tid i) s.table ≡ some (b, t)
        → Kept i s.table (record s { table = t }) (if b then in_lock k else reported)
    enqueue-Kept true t e =
        subst (λ t. Kept i s.table (record s { table = t }) (in_lock k))
          (sym (enqueue_monotone k (tid i) s.table 0 fuel true t e).1)
          (waits-Kept (
            subst (λ u. Acyclic u.mutexmap) (enqueue_monotone k (tid i) s.table 0 fuel true t e).1
              (enqueue-Acyclic k (tid i) s.table v.acyclic fuel t e)))
    enqueue-Kept false t e = inl refl

    lock_loop-TurnKept : TurnKept i s.table (settle after_lock (in_lock k) (lock_loop W k i s))
    unfolding lock_loop deadlock
    lock_loop-TurnKept = elim (Bool-cases (s.owner k == no_thread)) [
      | inl e ↦ rw e (take-TurnKept after_lock (in_lock k) refl)
      | inr e ↦ rw e (answered (enqueue fuel k (tid i) s.table) refl)
    ]
      where
        answered :
            (o : Option (Bool × Table))
            → enqueue fuel k (tid i) s.table ≡ o
            → TurnKept i s.table (
                settle after_lock (in_lock k) (elim o [
                  | none ↦ aborted
                  | some (go_on, t) ↦
                      if go_on
                      then waiting (record s { table = t }) silent
                      else returned (record s { table = t }) (thrown Error.deadlock) silent
                ]))
        answered none e = tt
        answered (some (true, t)) e = enqueue-Kept true t e
        answered (some (false, t)) e = enqueue-Kept false t e

    lock-TurnKept : TurnKept i s.table (settle after_lock (in_lock k) (lock W k i s))
    unfolding lock
    lock-TurnKept = elim (Bool-cases (s.owner k == tid i)) [
      | inl e ↦ rw e (stays outside free)
      | inr e ↦ rw e lock_loop-TurnKept
    ]

    try_lock-TurnKept : TurnKept i s.table (settle (λ _. outside) outside (try_lock W k i s))
    unfolding try_lock
    try_lock-TurnKept = elim (Bool-cases (s.owner k == tid i)) [
      | inl e ↦ rw e (stays outside free)
      | inr e ↦ elim (Bool-cases (s.owner k == no_thread)) [
        | inl o ↦ rw (e, o) (take-TurnKept (λ _. outside) outside refl)
        | inr o ↦ rw (e, o) (stays outside free)
      ]
    ]

    unlock-TurnKept : TurnKept i s.table (settle (λ _. outside) outside (unlock W k i s))
    unfolding unlock deadlock unlocked
    unlock-TurnKept = elim (Bool-cases (s.owner k == tid i)) [
      | inl e ↦
          let same = λ (u : ℕ).
            owners-SameFor u k (remove_owner (tid i)) s.table.mutexmap (λ e. refl) (λ e. refl) in
          rw e
            (inr (unlocked-Sound k i s v, (λ u. free ((same (tid i)).0 u)), λ j ne. same (tid j)))
      | inr e ↦ rw e (stays outside free)
    ]

    try_lock_loop-TurnKept :
        TurnKept i s.table (settle (λ _. outside) (in_lock_until k) (try_lock_loop W k i s))
    unfolding try_lock_loop
    try_lock_loop-TurnKept = elim (Bool-cases (s.owner k == no_thread)) [
      | inl o ↦ rw o (take-TurnKept (λ _. outside) (in_lock_until k) refl)
      | inr o ↦ rw o (stays (in_lock_until k) free)
    ]

    do_try_lockwait-TurnKept :
        TurnKept i s.table (settle (λ _. outside) (in_lock_until k) (do_try_lockwait W k i s))
    unfolding do_try_lockwait
    do_try_lockwait-TurnKept = elim (Bool-cases (s.owner k == tid i)) [
      | inl e ↦ rw e (stays outside free)
      | inr e ↦ rw e try_lock_loop-TurnKept
    ]

    do_try_lockwait_timeout-TurnKept :
        TurnKept i s.table
          (settle (λ _. outside) (in_lock_until k) (do_try_lockwait_timeout W k i s))
    unfolding do_try_lockwait_timeout
    do_try_lockwait_timeout-TurnKept = elim (Bool-cases (s.owner k == no_thread)) [
      | inl o ↦ rw o (take-TurnKept (λ _. outside) (in_lock_until k) refl)
      | inr o ↦ rw o (stays outside free)
    ]

  lock_wake-TurnKept :
      (s : Mutexes Table)
      → Sound s
      → Fits i (in_lock k) s.table.mutexmap
      → TurnKept i s.table (settle after_lock (woken k) (lock_wake W k i s))
  unfolding lock_wake deadlock dequeue
  lock_wake-TurnKept s v f = inr (
    dequeue-Sound k i s v,
    (λ u. f.1 (Waits-remove_waiter (tid i) k s.table.mutexmap u)),
    λ j ne. remove_waiter-SameFor (tid j) (tid i) (tid_ne i j ne) k s.table.mutexmap,
  )

module _ (fuel i : ℕ) (s : Mutexes Table) (v : Sound s) where
  called-TurnKept :
      (m : Method)
      → (Waits s.table.mutexmap (tid i) → ⊥)
      → TurnKept i s.table (called (deadlock fuel) i m s)
  unfolding called
  called-TurnKept (locks k) f = lock-TurnKept fuel k i s v f
  called-TurnKept (try_locks k) f = try_lock-TurnKept fuel k i s v f
  called-TurnKept (unlocks k) f = unlock-TurnKept fuel k i s v f
  called-TurnKept (try_locks_until k) f = do_try_lockwait-TurnKept fuel k i s v f

  pub act-TurnKept :
      (a : Action Method) (p : Place)
      → Fits i p s.table.mutexmap
      → TurnKept i s.table (act (deadlock fuel) i a s p)
  unfolding act
  act-TurnKept (call m) outside f = called-TurnKept m f
  act-TurnKept (call m) reported f = called-TurnKept m f
  act-TurnKept (wake _) (woken k) f = lock_loop-TurnKept fuel k i s v f
  act-TurnKept (wake _) (in_lock k) f = lock_wake-TurnKept fuel k i s v f
  act-TurnKept (wake false) (in_lock_until k) f = try_lock_loop-TurnKept fuel k i s v f
  act-TurnKept (wake true) (in_lock_until k) f = do_try_lockwait_timeout-TurnKept fuel k i s v f
  act-TurnKept _ p f = tt
