-- ===== src/RwLock/ReaderPrefer/Laws.antt =====
-- include/yamc_rwlock_sched.hpp: `ReaderPrefer` keeps the contract of a policy.
use yamc.Common.{ℕ, ◌+◌, ◌*◌, ◌≤◌, ◌<◌, ◌≡◌, ◌==◌, refl, top_bit, arith}
use yamc.RwLock.Policy.{Lawful}
use yamc.RwLock.ReaderPrefer.{
  State, reader_prefer, before_wait_wlock, after_wait_wlock, wait_wlock, acquire_wlock,
  release_wlock, wait_rlock, acquire_rlock, release_rlock,
}

-- The policy does not count the writers that wait.
abbrev pub Rep : State → ℕ → ℕ → ℕ → Type 0
Rep s k w r = (s.rwcount ≡ w * top_bit + r) × (w ≤ 1) × (r < top_bit)

-- `ReaderPrefer` keeps the contract, so none of its assertions fails under it.
pub reader_prefer-Lawful : Lawful reader_prefer Rep
unfolding before_wait_wlock after_wait_wlock wait_wlock acquire_wlock release_wlock wait_rlock
    acquire_rlock release_rlock
reader_prefer-Lawful = record {
  initial_rep = ground arith;
  before_wait_wlock_rep = λ s k w r h lt. (_, refl, h);
  after_wait_wlock_rep = λ s k w r h. (_, refl, h);
  wait_wlock_free = λ s k w r h e. ground arith;
  wait_wlock_held = λ s k h. ground arith;
  acquire_wlock_rep = λ s k h. (record { rwcount = top_bit }, ground arith, ground arith);
  release_wlock_rep = λ s k h. (record { rwcount = 0 }, ground arith, ground arith);
  wait_rlock_free = λ s k w r h e. ground arith;
  wait_rlock_idle = λ s r h. ground arith;
  acquire_rlock_rep = λ s k r h lt. (record { rwcount = r + 1 }, ground arith, ground arith);
  release_rlock_rep = λ s k r h.
      (record { rwcount = r }, r == 0, ground arith, ground arith, (ground arith, ground arith));
}
