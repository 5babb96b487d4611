-- ===== src/RwLock/WriterPrefer/Examples.antt =====
-- include/yamc_rwlock_sched.hpp: `WriterPrefer` at a concrete state.
use yamc.Common.{suc, ◌+◌, ◌≡◌, ◌==◌, some, true, not, arith}
use yamc.RwLock.WriterPrefer.{State, before_wait_wlock, wait_wlock, wait_rlock}
use yamc.RwLock.WriterPrefer.Laws.{Rep, writer_prefer_waits}

-- One writer waits, and two readers hold the lock.
abbrev held_by_readers : State
held_by_readers = record { nwriter = 1; nreader = 2 }

writer_prefer_waits_example :
    (wait_rlock held_by_readers ≡ not (1 + 0 == 0))
    × (wait_wlock held_by_readers ≡ not (0 + 2 == 0))
    × (t : State) × (before_wait_wlock held_by_readers ≡ some t)
    × Rep t (suc 1) 0 2
    × (wait_rlock t ≡ true)
writer_prefer_waits_example =
    writer_prefer_waits held_by_readers 1 0 2
      (omega arith, omega arith, omega arith, omega arith, omega arith) (omega arith)
