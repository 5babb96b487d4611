-- ===== src/RwLock/WriterPrefer.antt =====
-- include/yamc_rwlock_sched.hpp: `yamc::rwlock::WriterPrefer`.
pub mod Laws
pub mod Examples
use yamc.Common.{
  ℕ, ◌-◌, Bool, not, ◌||◌, Option, some, asserted, ltb, ◌==◌, inc, dec, size_mod, top_bit, has_top,
  set_top, low_bits,
}
use yamc.RwLock.Policy.{Policy}

-- `nwriter` holds the `locked` bit, its most significant one, and below it the number of writers
-- that wait. `nreader` counts the readers.
pub record State : Type 0 where
  pub nwriter : ℕ
  pub nreader : ℕ

abbrev initial : State
initial = record { nwriter = 0; nreader = 0 }

unfoldable pub before_wait_wlock : State → Option State
before_wait_wlock s =
    asserted (ltb (low_bits s.nwriter) (top_bit - 1))
      (record s { nwriter = inc size_mod s.nwriter })

unfoldable pub wait_wlock : State → Bool
wait_wlock s = has_top s.nwriter || ltb 0 s.nreader

unfoldable pub after_wait_wlock : State → Option State
after_wait_wlock s =
    asserted (ltb 0 (low_bits s.nwriter)) (record s { nwriter = dec size_mod s.nwriter })

unfoldable pub acquire_wlock : State → Option State
acquire_wlock s = asserted (not (has_top s.nwriter)) (record s { nwriter = set_top s.nwriter })

unfoldable pub release_wlock : State → Option State
release_wlock s = asserted (has_top s.nwriter) (record s { nwriter = low_bits s.nwriter })

unfoldable pub wait_rlock : State → Bool
wait_rlock s = not (s.nwriter == 0)

unfoldable pub acquire_rlock : State → Option State
acquire_rlock s = asserted (not (has_top s.nwriter)) (record s { nreader = inc size_mod s.nreader })

unfoldable pub release_rlock : State → Option (State × Bool)
release_rlock s =
    let rest = dec size_mod s.nreader in
    asserted (ltb 0 s.nreader) (record s { nreader = rest }, rest == 0)

abbrev pub writer_prefer : Policy State
writer_prefer = record {
  initial = initial;
  before_wait_wlock = before_wait_wlock;
  wait_wlock = wait_wlock;
  after_wait_wlock = after_wait_wlock;
  acquire_wlock = acquire_wlock;
  release_wlock = release_wlock;
  wait_rlock = wait_rlock;
  acquire_rlock = acquire_rlock;
  release_rlock = release_rlock;
}
