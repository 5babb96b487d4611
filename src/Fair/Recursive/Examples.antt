-- ===== src/Fair/Recursive/Examples.antt =====
-- include/fair_mutex.hpp: `recursive_mutex` at a concrete run.
use yamc.Common.{◌≡◌, refl, some, get_elem?, arith}
use yamc.Threads.{System, Reach, start, later, turn, call}
use yamc.Fair.Recursive.{Mutex}
use yamc.Fair.Recursive.Places.{Place, in_lock, holds, locks, try_locks, act, init}
use yamc.Fair.Recursive.Turns.{layer}
use yamc.Fair.Recursive.Exclusion.{recursive_refines}
use yamc.Fair.Ticket as Ticket
use yamc.Fair.Counted.{seen}

-- Thread 0 takes the mutex, thread 1 waits, thread 0 takes it again.
twice_by_0 :
    (s : System Mutex Place) × Reach act (init 2) s
    × (get_elem? s.threads 0 ≡ some (holds 2))
    × (get_elem? s.threads 1 ≡ some (in_lock 1))
unfolding act
twice_by_0 = (
  _,
  later (later (later start (turn 0 (call locks) refl refl)) (turn 1 (call locks) refl refl))
      (turn 0 (call try_locks) refl refl),
  refl,
  refl,
)

recursive_refines_example : Reach Ticket.act (Ticket.init 2) (seen layer twice_by_0.0)
recursive_refines_example = recursive_refines 2 (omega arith) twice_by_0.1
