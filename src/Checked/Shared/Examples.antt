-- ===== src/Checked/Shared/Examples.antt =====
-- include/checked_shared_mutex.hpp: the theorems at concrete runs.
use yamc.Common.{
  ℕ, ◌≤◌, ◌≡◌, ◌+◌, ◌<◌, false, inl, inr, refl, some, [], ◌∷◌, get_elem?, arith, length,
}
use yamc.Threads.{System, Reach, start, later, turn, Once, call, wake, moved, silent}
use yamc.RwLock.Policy.{max_count}
use yamc.RwLock.WriterPrefer
use yamc.RwLock.WriterPrefer.{writer_prefer}
use yamc.RwLock.WriterPrefer.Laws
use yamc.Validator.{Table, deadlock, ctor, locked, unlocked, enqueue, dequeue}
use yamc.Checked.Shared.Members.{Members}
use yamc.Checked.Shared.Places.{
  Mutexes, Place, outside, in_lock_shared, reported, locks, locks_shared, unlocks, unlocks_shared,
  try_locks_shared, called, act, init,
}
use yamc.Checked.Shared.Exclusion.{leaks}
use yamc.Checked.Shared.Starvation.{ReportedAt, reported_lock_starves_readers}

abbrev no_mutexes : Table
no_mutexes = record { counter = 0; mutexmap = [] }

abbrev Run : ℕ → System (Mutexes WriterPrefer.State Table) Place → Type 0
Run n s =
    Reach (act writer_prefer (deadlock 9))
      (init writer_prefer (deadlock 9) no_mutexes (1 ∷ 2 ∷ []) n) s

-- Thread 0 shares mutex 1, thread 1 owns mutex 2 and thread 0 waits for it.
shared_reached :
    (s : System (Mutexes WriterPrefer.State Table) Place) × Run 3 s
    × (get_elem? s.threads 0 ≡ some (in_lock_shared 2))
unfolding act called deadlock ctor locked enqueue init WriterPrefer.before_wait_wlock
    WriterPrefer.wait_wlock WriterPrefer.after_wait_wlock WriterPrefer.acquire_wlock
    WriterPrefer.wait_rlock WriterPrefer.acquire_rlock
shared_reached = (
  _,
  later
      (later (later start (turn 0 (call (locks_shared 1)) refl refl))
        (turn 1 (call (locks 2)) refl refl))
      (turn 0 (call (locks_shared 2)) refl refl),
  refl,
)

-- Then thread 1 asks for mutex 1 too, and `deadlock` is thrown.
report_reached :
    (s : System (Mutexes WriterPrefer.State Table) Place) × Run 3 s
    × (get_elem? s.threads 1 ≡ some (reported 1))
unfolding shared_reached act called deadlock ctor locked enqueue init WriterPrefer.before_wait_wlock
    WriterPrefer.wait_wlock WriterPrefer.after_wait_wlock WriterPrefer.acquire_wlock
    WriterPrefer.wait_rlock WriterPrefer.acquire_rlock
report_reached = (_, later shared_reached.1 (turn 1 (call (locks 1)) refl refl), refl)

-- The thread goes on: it unlocks mutex 2, thread 0 wakes and shares it, and unlocks both. Nobody owns
-- mutex 1 now.
freed_reached :
    (s : System (Mutexes WriterPrefer.State Table) Place) × (r : Run 3 s) × Once
      (act writer_prefer (deadlock 9))
      (ReportedAt 1)
      r
    × (s.shared.s_owners 1 ≡ [])
    × ((k : ℕ) → 3 + leaks writer_prefer (deadlock 9) k r < max_count)
    × (t : Mutexes WriterPrefer.State Table) × (act writer_prefer
          (deadlock 9)
          2
          (call (try_locks_shared 1))
          s.shared
          outside
        ≡ moved t outside silent)
unfolding report_reached shared_reached leaks act called deadlock ctor locked unlocked enqueue
    dequeue init WriterPrefer.before_wait_wlock WriterPrefer.wait_wlock
    WriterPrefer.after_wait_wlock WriterPrefer.acquire_wlock WriterPrefer.release_wlock
    WriterPrefer.release_rlock WriterPrefer.wait_rlock WriterPrefer.acquire_rlock
freed_reached = (
  _,
  later
      (later
        (later
          (later (later report_reached.1 (turn 1 (call (unlocks 2)) refl refl))
            (turn 0 (wake false) refl refl))
          (turn 0 (wake false) refl refl))
        (turn 0 (call (unlocks_shared 2)) refl refl))
      (turn 0 (call (unlocks_shared 1)) refl refl),
  inl (inl (inl (inl (inl (inr (1, report_reached.2)))))),
  refl,
  λ k. ground arith,
  _,
  refl,
)

reported_lock_starves_readers_example :
    length (freed_reached.5.s_owners 1) ≤ length (freed_reached.0.shared.s_owners 1)
unfolding freed_reached
reported_lock_starves_readers_example =
    reported_lock_starves_readers (deadlock 9) 3 no_mutexes (1 ∷ 2 ∷ []) freed_reached.1
      freed_reached.4 1 freed_reached.2 2 (call (try_locks_shared 1)) refl freed_reached.6
