-- ===== src/AlternateShared/Examples.antt =====
-- include/alternate_shared_mutex.hpp: the theorems at concrete runs.
use yamc.Common.{[], ◌∷◌, ◌^◌, ◌≡◌, ◌≢◌, refl, inr, true, false, arith}
use yamc.Threads.{System, Reach, start, later, turn, call, wake, moved, failed, silent, notify_all}
use yamc.RwLock.ReaderPrefer.{reader_prefer}
use yamc.RwLock.WriterPrefer.{writer_prefer}
use yamc.RwLock.ReaderPrefer.Laws.{reader_prefer-Lawful}
use yamc.RwLock.ReaderPrefer
use yamc.RwLock.WriterPrefer
use yamc.AlternateShared.{
  Place, outside, in_lock_shared, in_lock_until, owner, reader, locks, locks_shared, unlocks, act,
  init,
}
use yamc.AlternateShared.Exclusion.{shared_mutual_exclusion, shared_no_assertion_fails}
use yamc.AlternateShared.Wakeups.{blocked}
use yamc.AlternateShared.Wakeups.Writer.{writer_prefer_wakes, timeout_strands_readers}

-- Thread 0 writes, thread 1 waits to read.
abbrev writing : System ReaderPrefer.State Place
writing = record { shared = record { rwcount = 2 ^ 63 }; threads = owner ∷ in_lock_shared ∷ [] }

writing_reached : Reach (λ _. act reader_prefer) (init reader_prefer 2) writing
unfolding act ReaderPrefer.wait_wlock ReaderPrefer.before_wait_wlock ReaderPrefer.after_wait_wlock
    ReaderPrefer.acquire_wlock ReaderPrefer.wait_rlock
writing_reached =
    later (later start (turn 0 (call locks) refl refl)) (turn 1 (call locks_shared) refl refl)

shared_mutual_exclusion_example : (in_lock_shared ≢ owner) × (in_lock_shared ≢ reader)
shared_mutual_exclusion_example =
    shared_mutual_exclusion reader_prefer-Lawful 2 (omega arith) writing_reached 0 1 in_lock_shared
      (omega arith) refl refl

shared_no_assertion_fails_example : act reader_prefer (call unlocks) writing.shared owner ≢ failed
shared_no_assertion_fails_example =
    shared_no_assertion_fails reader_prefer-Lawful 2 (omega arith) writing_reached 0 (call unlocks)
      owner refl

-- One reader, one writer that waits.
abbrev contended : WriterPrefer.State
contended = record { nwriter = 1; nreader = 1 }

writer_prefer_wakes_example : ◌≡◌ notify_all notify_all
unfolding act WriterPrefer.release_wlock WriterPrefer.wait_rlock
writer_prefer_wakes_example =
    writer_prefer_wakes (record { nwriter = 2 ^ 63; nreader = 0 })
      (record { nwriter = 0; nreader = 0 }) 0 0 0 in_lock_shared notify_all (call unlocks) owner
      outside (omega arith, inr (omega arith)) refl refl refl (inr (λ e. cc))

timeout_strands_readers_example :
    (t : WriterPrefer.State) × (act writer_prefer (wake true) contended in_lock_until
      ≡ moved t outside silent)
    × (blocked writer_prefer contended in_lock_shared ≡ true)
    × (blocked writer_prefer t in_lock_shared ≡ false)
timeout_strands_readers_example = timeout_strands_readers contended 0 (omega arith)
