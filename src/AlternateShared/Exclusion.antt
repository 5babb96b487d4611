-- ===== src/AlternateShared/Exclusion.antt =====
-- include/alternate_shared_mutex.hpp: any number of threads, taking their turns in any order, over a
-- policy that keeps its contract.
use yamc.Common.{
  ℕ, ◌+◌, ◌≤◌, ◌<◌, ◌≡◌, ◌≢◌, refl, inl, subst, ap, true, false, some, get_elem?, length,
  length-set, length-replicate, total, total-replicate_zero, others, others-le-total,
  total-get_elem?, total-set, total-pair, total-le-length, arith,
}
use yamc.Threads.{failed, Action, call, wake, settle, System, Step, turn, Reach, Reach-inv}
use yamc.RwLock.Policy.{Policy, Lawful, max_count}
use yamc.AlternateShared.{
  lock, do_try_lockwait, Place, init, outside, in_lock, in_lock_until, in_lock_shared,
  in_lock_shared_until, owner, reader, Method, locks, try_locks, unlocks, locks_shared,
  try_locks_shared, unlocks_shared, try_locks_until, try_locks_shared_until, granted, act,
}
use yamc.AlternateShared.Sections.{
  waits, owns, reads, Held, Keeps, lock_loop-Keeps, do_try_lockwait_timeout-Keeps, try_lock-Keeps,
  unlock-Keeps, lock_shared_loop-Keeps, try_lock_shared-Keeps, do_try_lock_sharedwait_timeout-Keeps,
  unlock_shared-Keeps,
}

module _ {State : Type 0} {P : Policy State} {Rep : State → ℕ → ℕ → ℕ → Type 0}
    (L : Lawful P Rep) where
  module _ (s : State) (k w r : ℕ) (few : (k < max_count) × (r < max_count)) where
    lock-Keeps : Held Rep s k w r → Keeps Rep k w r (settle (granted owner) in_lock (lock P s))
    unfolding lock
    lock-Keeps h =
        let (t, e, u) = L.before_wait_wlock_rep s k w r h.0 few.0 in
        rw (e, lock) (lock_loop-Keeps L t k w r few in_lock (refl, refl, refl) (u, h.1))

    do_try_lockwait-Keeps :
        Held Rep s k w r
        → Keeps Rep k w r (settle (granted owner) in_lock_until (do_try_lockwait P s))
    unfolding do_try_lockwait
    do_try_lockwait-Keeps h =
        let (t, e, u) = L.before_wait_wlock_rep s k w r h.0 few.0 in
        rw (e, do_try_lockwait)
          (lock_loop-Keeps L t k w r few in_lock_until (refl, refl, refl) (u, h.1))

    -- Every turn passes its assertions and keeps the writers and the readers apart.
    act-Keeps :
        (a : Action Method) (p : Place)
        → Held Rep s (k + waits p) (w + owns p) (r + reads p)
        → Keeps Rep k w r (act P a s p)
    unfolding act
    act-Keeps (call locks) outside h = lock-Keeps (ground arith)
    act-Keeps (call try_locks) outside h = try_lock-Keeps L s k w r few (ground arith)
    act-Keeps (call unlocks) owner h = unlock-Keeps L s k w r few (ground arith)
    act-Keeps (call locks_shared) outside h =
        lock_shared_loop-Keeps L s k w r few in_lock_shared (refl, refl, refl) (ground arith)
    act-Keeps (call try_locks_shared) outside h = try_lock_shared-Keeps L s k w r few (ground arith)
    act-Keeps (call unlocks_shared) reader h = unlock_shared-Keeps L s k w r few (ground arith)
    act-Keeps (call try_locks_until) outside h = do_try_lockwait-Keeps (ground arith)
    act-Keeps (call try_locks_shared_until) outside h =
        lock_shared_loop-Keeps L s k w r few in_lock_shared_until (refl, refl, refl) (ground arith)
    act-Keeps (wake _) in_lock h =
        lock_loop-Keeps L s k w r few in_lock (refl, refl, refl) (ground arith)
    act-Keeps (wake _) in_lock_shared h =
        lock_shared_loop-Keeps L s k w r few in_lock_shared (refl, refl, refl) (ground arith)
    act-Keeps (wake false) in_lock_until h =
        lock_loop-Keeps L s k w r few in_lock_until (refl, refl, refl) (ground arith)
    act-Keeps (wake true) in_lock_until h =
        do_try_lockwait_timeout-Keeps L s k w r few (ground arith)
    act-Keeps (wake false) in_lock_shared_until h =
        lock_shared_loop-Keeps L s k w r few in_lock_shared_until (refl, refl, refl) (ground arith)
    act-Keeps (wake true) in_lock_shared_until h =
        do_try_lock_sharedwait_timeout-Keeps L s k w r few (ground arith)
    act-Keeps _ p h = tt

  -- The lock's state counts the threads that wait to write, that write and that read.
  record Inv (s : System State Place) : Type 0 where
    held : Held Rep s.shared (total waits s.threads) (total owns s.threads) (total reads s.threads)
    few : length s.threads < max_count

  others-lt :
      (f : Place → ℕ) (h : (p : Place) → f p ≤ 1) (s : System State Place) (i : ℕ)
      → Inv s
      → others f s.threads i < max_count
  others-lt f h s i v =
      omega (arith, v.few, others-le-total f s.threads i, total-le-length f h s.threads)

  init-Inv : (n : ℕ) → n < max_count → Inv (init P n)
  init-Inv n few = record {
    held =
        rw
          (
            total-replicate_zero waits n outside refl,
            total-replicate_zero owns n outside refl,
            total-replicate_zero reads n outside refl,
          )
          (L.initial_rep, inl refl);
    few = omega (arith, length-replicate n outside);
  }

  -- The thread whose turn it is, taken apart from the others.
  turn-Keeps :
      (s : System State Place) (i : ℕ) (a : Action Method) {p : Place}
      → Inv s
      → get_elem? s.threads i ≡ some p
      → Keeps Rep
          (others waits s.threads i)
          (others owns s.threads i)
          (others reads s.threads i)
          (act P a s.shared p)
  turn-Keeps s i a {p} v at =
      act-Keeps s.shared (others waits s.threads i) (others owns s.threads i)
        (others reads s.threads i)
        (others-lt waits (λ q. ground arith) s i v, others-lt reads (λ q. ground arith) s i v) a p
        (ground (
          arith,
          total-get_elem? waits s.threads i at,
          total-get_elem? owns s.threads i at,
          total-get_elem? reads s.threads i at,
        ))

  Step-Inv : (s t : System State Place) → Step (λ _. act P) s t → Inv s → Inv t
  Step-Inv s t (turn i a {p} {p'} {m} at e) v = record {
    held =
        rw
          (
            total-set waits s.threads i p' at,
            total-set owns s.threads i p' at,
            total-set reads s.threads i p' at,
          )
          (subst (Keeps Rep _ _ _) e (turn-Keeps s i a v at));
    few = omega (arith, length-set s.threads i p', v.few);
  }

  Reach-Inv :
      (n : ℕ) {s : System State Place} → n < max_count → Reach (λ _. act P) (init P n) s → Inv s
  Reach-Inv n few r = Reach-inv (λ _. act P) Inv Step-Inv r (init-Inv n few)

  -- Below 2 ^ 63 - 1 threads: while one thread owns the lock, no other owns it or reads under it.
  pub shared_mutual_exclusion :
      (n : ℕ) {s : System State Place}
      → n < max_count
      → Reach (λ _. act P) (init P n) s
      → (i j : ℕ) (p : Place) → i ≢ j
      → get_elem? s.threads i ≡ some owner
      → get_elem? s.threads j ≡ some p
      → (p ≢ owner) × (p ≢ reader)
  shared_mutual_exclusion n {s} few r i j p ne at_i at_j =
      let v = Reach-Inv n few r in
      let one = total-pair owns s.threads i j at_i at_j ne in
      let two = total-get_elem? reads s.threads j at_j in
      let three = total-get_elem? owns s.threads i at_i in
      (λ e. ground (arith, v.held.1, ap owns e), λ e. ground (arith, v.held.1, ap reads e))

  -- Below 2 ^ 63 - 1 threads: no assertion of the mutex or its policy fails.
  pub shared_no_assertion_fails :
      (n : ℕ) {s : System State Place}
      → n < max_count
      → Reach (λ _. act P) (init P n) s
      → (i : ℕ) (a : Action Method) (p : Place) → get_elem? s.threads i ≡ some p
      → act P a s.shared p ≢ failed
  shared_no_assertion_fails n {s} few r i a p at e =
      subst (Keeps Rep _ _ _) e (turn-Keeps s i a (Reach-Inv n few r) at)
