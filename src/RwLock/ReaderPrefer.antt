-- ===== src/RwLock/ReaderPrefer.antt =====
-- include/yamc_rwlock_sched.hpp: `yamc::rwlock::ReaderPrefer`.
pub mod Laws
use yamc.Common.{
  ℕ, ◌-◌, Bool, not, Option, some, asserted, ltb, ◌==◌, inc, dec, size_mod, top_bit, has_top,
  set_top, low_bits,
}
use yamc.RwLock.Policy.{Policy}

-- The writer's bit is the most significant one, and the bits below it count the readers.
pub record State : Type 0 where
  pub rwcount : ℕ

abbrev initial : State
initial = record { rwcount = 0 }

unfoldable pub before_wait_wlock : State → Option State
before_wait_wlock s = some s

unfoldable pub after_wait_wlock : State → Option State
after_wait_wlock s = some s

unfoldable pub wait_wlock : State → Bool
wait_wlock s = not (s.rwcount == 0)

unfoldable pub acquire_wlock : State → Option State
acquire_wlock s = asserted (not (has_top s.rwcount)) (record { rwcount = set_top s.rwcount })

unfoldable pub release_wlock : State → Option State
release_wlock s = asserted (has_top s.rwcount) (record { rwcount = low_bits s.rwcount })

unfoldable pub wait_rlock : State → Bool
wait_rlock s = has_top s.rwcount

unfoldable pub acquire_rlock : State → Option State
acquire_rlock s =
    asserted (ltb (low_bits s.rwcount) (top_bit - 1)) (record { rwcount = inc size_mod s.rwcount })

unfoldable pub release_rlock : State → Option (State × Bool)
release_rlock s =
    let rest = dec size_mod s.rwcount in
    asserted (ltb 0 (low_bits s.rwcount)) (record { rwcount = rest }, rest == 0)

abbrev pub reader_prefer : Policy State
reader_prefer = record {
  initial = initial;
  before_wait_wlock = before_wait_wlock;
  wait_wlock = wait_wlock;
  after_wait_wlock = after_wait_wlock;
  acquire_wlock = acquire_wlock;
  release_wlock = release_wlock;
  wait_rlock = wait_rlock;
  acquire_rlock = acquire_rlock;
  release_rlock = release_rlock;
}
