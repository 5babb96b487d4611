-- ===== src/Checked/Examples.antt =====
-- include/checked_mutex.hpp: the theorems at concrete runs.
use mathlib.Core.WellFounded.{Acc}
use yamc.Common.{ℕ, ◌≡◌, refl, [], ◌∷◌, some, ◌⊎◌, get_elem?}
use yamc.Threads.{System, Reach, start, later, turn, call, Once}
use yamc.Validator.{Table, deadlock, ctor, locked, enqueue}
use yamc.Checked.{Mutexes, Place, in_lock, locks, act, init}
use yamc.Checked.Deadlocks.{no_mutexes, Blocked, DeadlockThrown, deadlock_reported}

-- Threads 0 and 1 own mutexes 1 and 2, and thread 0 waits for mutex 2.
chain_reached :
    (s : System (Mutexes Table) Place) × Reach
      (act (deadlock 9))
      (init (deadlock 9) no_mutexes (1 ∷ 2 ∷ []) 2)
      s
    × (get_elem? s.threads 0 ≡ some (in_lock 2))
unfolding act deadlock ctor locked enqueue init
chain_reached = (
  _,
  later
      (later (later start (turn 0 (call (locks 1)) refl refl)) (turn 1 (call (locks 2)) refl refl))
      (turn 0 (call (locks 2)) refl refl),
  refl,
)

deadlock_reported_example :
    Once (act (deadlock 9)) DeadlockThrown chain_reached.1
    ⊎ ((t : ℕ) → Acc (λ w u. Blocked chain_reached.0 u w) t)
deadlock_reported_example = deadlock_reported 9 2 (1 ∷ 2 ∷ []) chain_reached.0 chain_reached.1
