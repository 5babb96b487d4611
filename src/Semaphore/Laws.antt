-- ===== src/Semaphore/Laws.antt =====
-- include/yamc_semaphore.hpp: no permit is lost or made up, and no wake-up is lost.
use yamc.Common.{
  ℕ, ◌+◌, ◌≤◌, ◌<◌, ◌≡◌, refl, subst, some, total, others, total-get_elem?, total-set,
  total-replicate_zero, arith,
}
use yamc.Threads.{
  Notice, notify_all, Turn, moved, refused, failed, Action, call, System, Step, turn, Reach,
  Reach-inv,
}
use yamc.Semaphore.{
  Semaphore, counting_semaphore, take, Place, outside, in_acquire, in_acquire_until, Method,
  acquires, try_acquires, releases, act, start_with,
}

abbrev pub acquired : Place → ℕ
acquired (outside a r) = a
acquired (in_acquire a r) = a
acquired (in_acquire_until a r) = a

abbrev pub released : Place → ℕ
released (outside a r) = r
released (in_acquire a r) = r
released (in_acquire_until a r) = r

-- `k` permits are accounted for, and the counter is within its bound.
abbrev Counts : ℕ → ℕ → Semaphore → ℕ → ℕ → Type 0
Counts desired max s a r = (s.counter + a ≡ desired + r) × (s.counter ≤ s.max) × (s.max ≡ max)

abbrev Keeps : ℕ → ℕ → ℕ → ℕ → Turn Semaphore Place → Type 0
Keeps d m a r (moved s p n) = Counts d m s (a + acquired p) (r + released p)
Keeps d m a r refused = Unit
Keeps d m a r failed = Unit

act-Keeps :
    (d m a r i : ℕ) (x : Action Method) (s : Semaphore) (p : Place)
    → Counts d m s (a + acquired p) (r + released p)
    → Keeps d m a r (act i x s p)
unfolding act take
act-Keeps d m a r i (call acquires) s (outside b q) h = ground arith
act-Keeps d m a r i (call try_acquires) s (outside b q) h = ground arith
act-Keeps d m a r i (call (releases u)) s (outside b q) h = ground arith
act-Keeps d m a r i x s p h = ground arith

Inv : ℕ → ℕ → System Semaphore Place → Type 0
Inv d m s = Counts d m s.shared (total acquired s.threads) (total released s.threads)

Step-Inv : (d m : ℕ) (s t : System Semaphore Place) → Step act s t → Inv d m s → Inv d m t
unfolding Inv
Step-Inv d m s t (turn i x {p} {p'} at e) v =
    rw (total-set acquired s.threads i p' at, total-set released s.threads i p' at)
      (subst (Keeps d m _ _) e (
        act-Keeps d m (others acquired s.threads i) (others released s.threads i) i x s.shared p (
          ground (
            arith,
            total-get_elem? acquired s.threads i at,
            total-get_elem? released s.threads i at,
          ))))

-- Any number of threads, in any interleaving: the counter and the permits acquired make up the
-- initial value and the permits released, and the counter is at most `max`.
pub permits_conserved :
    (max desired n : ℕ) {s0 : Semaphore} {s : System Semaphore Place}
    → counting_semaphore max desired ≡ some s0
    → Reach act (start_with s0 n) s
    → (s.shared.counter + total acquired s.threads ≡ desired + total released s.threads)
      × (s.shared.counter ≤ max)
unfolding Inv counting_semaphore
permits_conserved max desired n {s0} {s} e r =
    let v = Reach-inv act (Inv desired max) (Step-Inv desired max) r (
      ground (
        arith,
        total-replicate_zero acquired n (outside 0 0) refl,
        total-replicate_zero released n (outside 0 0) refl,
      )) in
    ground (arith, v)

-- A thread that waits and could go on after a turn was notified by it.
release_wakes :
    (i : ℕ) (x : Action Method) (s t : Semaphore) (p p' : Place) (n : Notice)
    → act i x s p ≡ moved t p' n
    → s.counter ≡ 0
    → 0 < t.counter
    → n ≡ notify_all
unfolding act take
release_wakes i (call acquires) s t (outside b q) p' n e z h = ground arith
release_wakes i (call (releases u)) s t (outside b q) p' n e z h = ground arith
release_wakes i x s t p p' n e z h = ground arith
