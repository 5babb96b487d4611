-- ===== src/Fair/Shared/Examples.antt =====
-- include/fair_shared_mutex.hpp: the theorems at a concrete queue.
use yamc.Common.{
  arith, ℕ, ◌≡◌, ◌≢◌, ◌+◌, ◌<◌, ◌⊎◌, [], ◌∷◌, true, false, some, get_elem?, total, refl,
}
use yamc.Threads.{
  System, Reach, start, later, turn, call, wake, failed, moved, Notice, returned, notify_all,
}
use yamc.Fair.WaitQueue.{
  Store, init, locked, sentinel, request, set_status, wq_push_back, wq_push_front, wq_erase,
  wq_empty,
}
use yamc.Fair.WaitQueue.Chain.{Queued, In, Fresh}
use yamc.Fair.Shared.{
  impl_unlock, phase_fairness, wq_push_locknode, wq_shared_lockable, wq_pop_locknode, impl_lock,
  impl_lock_loop, impl_lock_shared, impl_lock_shared_loop, impl_unlock_shared,
}
use yamc.Fair.Shared.Phase.{shareds, exclusives}
use yamc.Fair.Shared.Unlock.{unlock_opens_next}
use yamc.Fair.Shared.Places.{
  Place, outside, in_lock, owner, shared_owner, locks, locks_shared, try_locks_shared_until,
  unlocks_shared, act, init as unused,
}
use yamc.Fair.Shared.Turns.{owns, shares, waits}
use yamc.Fair.Shared.Exclusion.{
  Noted, fair_shared_exclusion, fair_shared_lock_node, fair_shared_no_assertion_fails,
}
use yamc.Fair.Shared.Wakeups.{blocked, fair_shared_wakes}
use yamc.Fair.Shared.Progress.{Takes, fair_shared_no_deadlock}

-- `locked_` with the status `mode`, then a shared, an exclusive and another shared request.
abbrev line : ℕ → Store
line mode = wq_push_back (request 3) (
    set_status (request 3) 1 (
      wq_push_back (request 2) (
        set_status (request 2) 0 (
          wq_push_back (request 1)
            (set_status (request 1) 1 (wq_push_back locked (set_status locked mode init)))))))

unlock_opens_next_example :
    (g : Store) × (impl_unlock 5 phase_fairness (line 6) ≡ returned g true notify_all)
    × (Queued g (request 1 ∷ request 3 ∷ request 2 ∷ [])
        × ((c : ℕ) → In c (request 1 ∷ request 3 ∷ []) → g.status c ≡ 3)
        × ((c : ℕ)
            → c ≢ sentinel
            → c ≢ locked
            → Fresh c (request 1 ∷ request 3 ∷ [])
            → g.status c ≡ (line 6).status c))
unfolding wq_push_back shareds exclusives
unlock_opens_next_example =
    unlock_opens_next phase_fairness (line 6) (request 1 ∷ request 2 ∷ request 3 ∷ []) 5
      (ground arith) (ground arith) (ground arith) (ground arith) (omega arith)

-- Thread 0 holds the mutex shared, thread 1 asks for it, thread 2 waits behind it, thread 0 unlocks.
given_up_by_0 :
    (s : System Store Place) × Reach (act 4 true) (unused 3) s
    × (get_elem? s.threads 1 ≡ some in_lock)
unfolding act wq_empty wq_push_back wq_push_front wq_erase wq_push_locknode wq_shared_lockable
    wq_pop_locknode impl_lock impl_lock_loop impl_lock_shared impl_lock_shared_loop
    impl_unlock_shared
given_up_by_0 = (
  _,
  later
      (later
        (later (later start (turn 0 (call locks_shared) refl refl)) (turn 1 (call locks) refl refl))
        (turn 2 (call try_locks_shared_until) refl refl))
      (turn 0 (call unlocks_shared) refl refl),
  refl,
)

fair_shared_no_deadlock_example :
    ((j : ℕ) × (q : Place) × (get_elem? given_up_by_0.0.threads j ≡ some q)
      × (0 < owns q + shares q))
    ⊎ ((j : ℕ) × (q : Place) × (get_elem? given_up_by_0.0.threads j ≡ some q)
        × (waits q ≡ 1)
        × Takes 4 true j given_up_by_0.0.shared q)
fair_shared_no_deadlock_example =
    fair_shared_no_deadlock 3 4 true (omega arith) (omega arith) given_up_by_0.1 1 in_lock
      given_up_by_0.2 refl

fair_shared_lock_node_example :
    Noted given_up_by_0.0.shared
      (total owns given_up_by_0.0.threads)
      (total shares given_up_by_0.0.threads)
fair_shared_lock_node_example =
    fair_shared_lock_node 3 4 true (omega arith) (omega arith) given_up_by_0.1

fair_shared_no_assertion_fails_example :
    act 4 true 1 (wake false) given_up_by_0.0.shared in_lock ≢ failed
fair_shared_no_assertion_fails_example =
    fair_shared_no_assertion_fails 3 4 true (omega arith) (omega arith) given_up_by_0.1 1
      (wake false) in_lock given_up_by_0.2

-- What the unlock of thread 0 does in that run, while thread 1 waits.
unlocking_by_0 :
    (s : System Store Place) × Reach (act 4 true) (unused 3) s
    × (h : Store) × (notice : Notice) × (get_elem? s.threads 0 ≡ some shared_owner)
    × (act 4 true 0 (call unlocks_shared) s.shared shared_owner ≡ moved h outside notice)
    × (get_elem? s.threads 1 ≡ some in_lock)
    × (blocked 1 in_lock s.shared ≡ true)
    × (blocked 1 in_lock h ≡ false)
unfolding act wq_empty wq_push_back wq_push_front wq_erase wq_push_locknode wq_shared_lockable
    wq_pop_locknode impl_lock impl_lock_loop impl_lock_shared impl_lock_shared_loop
    impl_unlock_shared
unlocking_by_0 = (
  _,
  later (later start (turn 0 (call locks_shared) refl refl)) (turn 1 (call locks) refl refl),
  _,
  _,
  refl,
  refl,
  refl,
  refl,
  refl,
)

fair_shared_wakes_example : unlocking_by_0.3 ≡ notify_all
fair_shared_wakes_example =
    fair_shared_wakes 3 4 true (omega arith) (omega arith) unlocking_by_0.1 0 (call unlocks_shared)
      shared_owner unlocking_by_0.4 unlocking_by_0.2 outside unlocking_by_0.3 unlocking_by_0.5 1
      in_lock (omega arith) unlocking_by_0.6 unlocking_by_0.7 unlocking_by_0.8

-- Then thread 1 wakes up.
taken_by_1 :
    (s : System Store Place) × Reach (act 4 true) (unused 3) s
    × (get_elem? s.threads 1 ≡ some owner)
unfolding act wq_empty wq_push_back wq_push_front wq_erase wq_push_locknode wq_shared_lockable
    wq_pop_locknode impl_lock impl_lock_loop impl_lock_shared impl_lock_shared_loop
    impl_unlock_shared given_up_by_0
taken_by_1 = (_, later given_up_by_0.1 (turn 1 (wake false) refl refl), refl)

fair_shared_exclusion_example :
    (get_elem? taken_by_1.0.threads 2 ≢ some owner)
    × (get_elem? taken_by_1.0.threads 2 ≢ some shared_owner)
fair_shared_exclusion_example =
    fair_shared_exclusion 3 4 true (omega arith) (omega arith) taken_by_1.1 1 2 (omega arith)
      taken_by_1.2
