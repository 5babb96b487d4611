-- ===== src/Fair/Timed/Examples.antt =====
-- include/fair_mutex.hpp: `timed_mutex` at a concrete run.
use yamc.Common.{inl, inr, ◌≢◌, refl, [], ◌∷◌, some, get_elem?, arith, true}
use yamc.Threads.{System, call, wake, Reach, start, later, turn}
use yamc.Fair.WaitQueue.{
  Store, locked, request, wq_push_back, wq_erase, wq_empty, init as empty_queue,
}
use yamc.Fair.Timed.{
  Place, outside, in_lock, in_lock_until, owner, locks, try_locks_until, act, init,
}
use yamc.Fair.Timed.Turns.{Turns, timed-Moves}
use yamc.Fair.Timed.Safety.{timed_mutual_exclusion}

-- Thread 0 owns the mutex, thread 1 waits, thread 2 has given up.
abbrev busy : Store
busy = wq_push_back (request 1) (wq_push_back locked empty_queue)

abbrev used : System Store Place
used = record {
  shared = wq_erase (request 2) (wq_push_back (request 2) busy);
  threads = owner ∷ in_lock ∷ outside ∷ [];
}

used_reached : Reach act (init 3) used
unfolding act wq_push_back wq_erase wq_empty
used_reached =
    later
      (later (later (later start (turn 0 (call locks) refl refl)) (turn 1 (call locks) refl refl))
        (turn 2 (call try_locks_until) refl refl))
      (turn 2 (wake true) refl refl)

timed_mutual_exclusion_example : get_elem? used.threads 1 ≢ some owner
timed_mutual_exclusion_example = timed_mutual_exclusion 3 used_reached 0 1 (omega arith) refl

timed-Moves_example : Turns 1 (wake true) busy (locked ∷ request 1 ∷ []) in_lock_until
unfolding wq_push_back
timed-Moves_example =
    timed-Moves 1 (wake true) busy (locked ∷ request 1 ∷ []) in_lock_until (ground arith)
      (ground arith) (inr (inl refl))
