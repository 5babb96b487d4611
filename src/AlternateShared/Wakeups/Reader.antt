-- ===== src/AlternateShared/Wakeups/Reader.antt =====
-- include/alternate_shared_mutex.hpp under `ReaderPrefer`: no wake-up is lost.
use yamc.Common.{ℕ, ◌+◌, ◌≡◌, true, false, arith}
use yamc.Threads.{Notice, notify_all, moved, Action, call}
use yamc.RwLock.ReaderPrefer.{
  State, reader_prefer, before_wait_wlock, after_wait_wlock, wait_wlock, acquire_wlock,
  release_wlock, wait_rlock, acquire_rlock, release_rlock,
}
use yamc.RwLock.ReaderPrefer.Laws.{Rep}
use yamc.AlternateShared.{
  Place, outside, owner, reader, Method, locks, try_locks, unlocks, unlocks_shared, act,
}
use yamc.AlternateShared.Sections.{waits, owns, reads, Held}
use yamc.AlternateShared.Wakeups.{blocked}

-- Under `ReaderPrefer` every turn after which a thread that had to wait could go on notifies all.
reader_prefer_wakes :
    (s t : State) (k w r : ℕ) (q : Place) (n : Notice) (a : Action Method) (p p' : Place)
    → Held Rep s (k + waits p) (w + owns p) (r + reads p)
    → act reader_prefer a s p ≡ moved t p' n
    → blocked reader_prefer s q ≡ true
    → blocked reader_prefer t q ≡ false
    → n ≡ notify_all
unfolding act before_wait_wlock after_wait_wlock wait_wlock acquire_wlock release_wlock wait_rlock
    acquire_rlock release_rlock
reader_prefer_wakes s t k w r q n (call locks) outside p' h e was is = ground arith
reader_prefer_wakes s t k w r q n (call try_locks) outside p' h e was is = ground arith
reader_prefer_wakes s t k w r q n (call unlocks) owner p' h e was is = ground arith
reader_prefer_wakes s t k w r q n (call unlocks_shared) reader p' h e was is = ground arith
reader_prefer_wakes s t k w r q n a p p' h e was is = ground arith
