-- ===== src/AlternateShared/Wakeups/Writer.antt =====
-- include/alternate_shared_mutex.hpp under `WriterPrefer`: a writer that gives up may strand readers.
use yamc.Common.{ℕ, ◌+◌, ◌≡◌, ◌≢◌, suc, ◌⊎◌, true, false, arith}
use yamc.Threads.{Notice, notify_all, silent, moved, Action, call, wake}
use yamc.RwLock.WriterPrefer.{
  State, writer_prefer, before_wait_wlock, after_wait_wlock, wait_wlock, acquire_wlock,
  release_wlock, wait_rlock, acquire_rlock, release_rlock,
}
use yamc.RwLock.WriterPrefer.Laws.{Rep}
use yamc.AlternateShared.{
  Place, outside, in_lock_until, in_lock_shared, owner, reader, Method, locks, try_locks, unlocks,
  unlocks_shared, act,
}
use yamc.AlternateShared.Sections.{waits, owns, reads, Held}
use yamc.AlternateShared.Wakeups.{blocked}

-- Under `WriterPrefer` a turn after which a thread that had to wait could go on notifies all, unless
-- the turn is a writer's that gives up at its deadline.
pub writer_prefer_wakes :
    (s t : State) (k w r : ℕ) (q : Place) (n : Notice) (a : Action Method) (p p' : Place)
    → Held Rep s (k + waits p) (w + owns p) (r + reads p)
    → act writer_prefer a s p ≡ moved t p' n
    → blocked writer_prefer s q ≡ true
    → blocked writer_prefer t q ≡ false
    → (a ≢ wake true) ⊎ (p ≢ in_lock_until)
    → n ≡ notify_all
unfolding act before_wait_wlock after_wait_wlock wait_wlock acquire_wlock release_wlock wait_rlock
    acquire_rlock release_rlock
writer_prefer_wakes s t k w r q n (call locks) outside p' h e was is not_late = ground arith
writer_prefer_wakes s t k w r q n (call try_locks) outside p' h e was is not_late = ground arith
writer_prefer_wakes s t k w r q n (call unlocks) owner p' h e was is not_late = ground arith
writer_prefer_wakes s t k w r q n (call unlocks_shared) reader p' h e was is not_late = ground arith
writer_prefer_wakes s t k w r q n a p p' h e was is not_late = ground arith

-- The lost wake-up: the last waiting writer gives up while readers hold the lock. A thread in
-- `lock_shared`, which had to wait for that writer, need not wait any more, and is not notified.
pub timeout_strands_readers :
    (s : State) (r : ℕ)
    → Rep s 1 0 (suc r)
    → (t : State) × (act writer_prefer (wake true) s in_lock_until ≡ moved t outside silent)
      × (blocked writer_prefer s in_lock_shared ≡ true)
      × (blocked writer_prefer t in_lock_shared ≡ false)
unfolding act before_wait_wlock after_wait_wlock wait_wlock acquire_wlock release_wlock wait_rlock
    acquire_rlock release_rlock
timeout_strands_readers s r h = (record s { nwriter = 0 }, ground arith, ground arith, ground arith)
