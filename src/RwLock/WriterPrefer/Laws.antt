-- ===== src/RwLock/WriterPrefer/Laws.antt =====
-- include/yamc_rwlock_sched.hpp: `WriterPrefer` keeps the contract of a policy.
use yamc.Common.{ℕ, suc, some, true, not, ◌+◌, ◌*◌, ◌≤◌, ◌<◌, ◌≡◌, ◌==◌, top_bit, arith}
use yamc.RwLock.Policy.{Lawful, max_count}
use yamc.RwLock.WriterPrefer.{
  State, writer_prefer, before_wait_wlock, after_wait_wlock, wait_wlock, acquire_wlock,
  release_wlock, wait_rlock, acquire_rlock, release_rlock,
}

abbrev pub Rep : State → ℕ → ℕ → ℕ → Type 0
Rep s k w r =
    (s.nwriter ≡ w * top_bit + k) × (k < top_bit) × (w ≤ 1) × (s.nreader ≡ r) × (r < top_bit)

abbrev of : ℕ → ℕ → State
of n m = record { nwriter = n; nreader = m }

-- `WriterPrefer` keeps the contract, so none of its assertions fails under it.
pub writer_prefer-Lawful : Lawful writer_prefer Rep
unfolding before_wait_wlock after_wait_wlock wait_wlock acquire_wlock release_wlock wait_rlock
    acquire_rlock release_rlock
writer_prefer-Lawful = record {
  initial_rep = ground arith;
  before_wait_wlock_rep = λ s k w r h lt. (of (s.nwriter + 1) r, ground arith, ground arith);
  after_wait_wlock_rep = λ s k w r h. (of (w * top_bit + k) r, ground arith, ground arith);
  wait_wlock_free = λ s k w r h e. ground arith;
  wait_wlock_held = λ s k h. ground arith;
  acquire_wlock_rep = λ s k h. (of (top_bit + k) 0, ground arith, ground arith);
  release_wlock_rep = λ s k h. (of k 0, ground arith, ground arith);
  wait_rlock_free = λ s k w r h e. ground arith;
  wait_rlock_idle = λ s r h. ground arith;
  acquire_rlock_rep = λ s k r h lt. (of k (r + 1), ground arith, ground arith);
  release_rlock_rep =
      λ s k r h. (of k r, r == 0, ground arith, ground arith, (ground arith, ground arith));
}

-- In a state that stands for k waiting writers, w writers and r readers: a reader has to wait exactly while
-- there is a writer, also one that only waits, and a writer exactly while the lock is held. A writer that
-- begins to wait, one of fewer than 2 ^ 63, is counted without a failed assertion, and from then on readers
-- have to wait, whoever holds the lock.
pub writer_prefer_waits :
    (s : State) (k w r : ℕ)
    → Rep s k w r
    → k < max_count
    → (wait_rlock s ≡ not (k + w == 0))
      × (wait_wlock s ≡ not (w + r == 0))
      × (t : State) × (before_wait_wlock s ≡ some t)
      × Rep t (suc k) w r
      × (wait_rlock t ≡ true)
unfolding before_wait_wlock wait_wlock wait_rlock
writer_prefer_waits s k w r h few =
    (ground arith, ground arith, of (s.nwriter + 1) r, ground arith, ground arith, ground arith)
