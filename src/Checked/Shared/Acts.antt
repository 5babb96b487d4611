-- ===== src/Checked/Shared/Acts.antt =====
-- include/checked_shared_mutex.hpp: each turn of a thread keeps what is held of all mutexes.
use yamc.Common.{ℕ, suc, ◌+◌, ◌<◌, ◌≡◌, ◌≢◌, refl, true, false, arith, subst}
use yamc.Threads.{Outcome, settle, Action, call, wake}
use yamc.RwLock.Policy.{Policy, Lawful, max_count}
use yamc.Fair.WaitQueue.Chain.{In}
use yamc.Validator.{Validator}
use yamc.Checked.{Answer, tid}
use yamc.Checked.Shared.{Shared, lock_wake, lock_shared_wake}
use yamc.Checked.Shared.Places.{
  Mutexes, load, at, Place, outside, in_lock, in_lock_shared, in_lock_until, in_lock_shared_until,
  woken, woken_shared, reported, reported_shared, Method, locks, try_locks, unlocks, locks_shared,
  try_locks_shared, unlocks_shared, try_locks_until, try_locks_shared_until, after, called, act,
}
use yamc.Checked.Shared.Ends.{Held, NoAnswer, Ends}
use yamc.Checked.Shared.Sections.{
  lock-Ends, lock_loop-Ends, try_lock-Ends, unlock-Ends, lock_shared-Ends, lock_shared_loop-Ends,
  try_lock_shared-Ends, unlock_shared-Ends, do_try_lockwait-Ends, try_lock_loop-Ends,
  do_try_lockwait_timeout-Ends, do_try_lock_sharedwait-Ends, try_lock_shared_loop-Ends,
  do_try_lock_sharedwait_timeout-Ends,
}
use yamc.Checked.Shared.Turns.{waits, stays, called_at, target, Fits, Kept, lifted}

module _ {State V : Type 0} {P : Policy State} {Rep : State → ℕ → ℕ → ℕ → Type 0} (L : Lawful P Rep)
    (W : Validator V) (n : ℕ) (few : n < max_count) where
  module _ (i : ℕ) (mine : i < n) (o : ℕ → ℕ) (below : (k : ℕ) → o k < max_count)
      (s : Mutexes State V) where
    -- A turn of a thread that stands at `p`, in no wait but at mutex `k`.
    turned :
        (k : ℕ) (p r w : Place) (b c : ℕ) (u : Outcome (Shared State V) Answer)
        → ((j : ℕ) → Held Rep n (o j + stays j p) (load j s))
        → ((j : ℕ) → j ≢ k → (stays j p ≡ 0) × (waits j r ≡ 0) × (waits j w ≡ 0))
        → ((t : Mutexes State V) → Fits i r t)
        → ((t : Mutexes State V) → (In (tid i) (t.s_owners k) → ⊥) → Fits i w t)
        → (o k + waits k r ≡ b) × (o k + waits k w ≡ c)
        → Ends Rep n (NoAnswer Rep n W k i s.table) i (s.s_owners k) (o k) b c u
        → Kept Rep W n k o i s (settle (after r) w (at k s u))
    turned k p r w b c u old off fr fw (eb, ec) h =
        let zero_more : o k + 0 ≡ o k = omega arith in
        lifted Rep W n o i k s p (λ j ne. (off j ne).0) old r w (λ j ne. (off j ne).1)
          (λ j ne. (off j ne).2) fr fw u (rw (zero_more, eb, ec) h)

    counted : (k a b : ℕ) → a ≡ b → Held Rep n a (load k s) → Held Rep n b (load k s)
    counted k a b e h = subst (λ x. Held Rep n x (load k s)) e h

    -- A member called in no wait, that does not count the thread, and waits, if it does, at `w`.
    uncounted :
        (k : ℕ) (r w : Place) (u : Outcome (Shared State V) Answer)
        → ((j : ℕ) → Held Rep n (o j + 0) (load j s))
        → ((j : ℕ) → (waits j r ≡ 0) × (waits j w ≡ 0))
        → ((t : Mutexes State V) → Fits i r t)
        → ((t : Mutexes State V) → (In (tid i) (t.s_owners k) → ⊥) → Fits i w t)
        → (Held Rep n (o k) (load k s)
            → Ends Rep n (NoAnswer Rep n W k i s.table) i (s.s_owners k) (o k) (o k) (o k) u)
        → Kept Rep W n k o i s (settle (after r) w (at k s u))
    uncounted k r w u h off fr fw ends =
        turned k outside r w (o k) (o k) u h (λ j ne. (refl, (off j).0, (off j).1)) fr fw
          (omega (arith, (off k).0), omega (arith, (off k).1))
          (ends (counted k (o k + 0) (o k) (omega arith) (h k)))

    called-Kept :
        (m : Method)
        → ((j : ℕ) → Held Rep n (o j + 0) (load j s))
        → Kept Rep W n (called_at m) o i s (called P W i m s)
    unfolding called
    called-Kept (locks k) h =
        turned k outside (reported k) (in_lock k) (suc (o k)) (suc (o k)) _ h
          (λ j ne. (refl, ground arith, ground arith)) (λ t. tt) (λ t g. g)
          (ground arith, ground arith)
          (lock-Ends L W n few k i mine (o k) (below k) (load k s)
            (counted k (o k + 0) (o k) (omega arith) (h k)))
    called-Kept (try_locks_until k) h =
        turned k outside outside (in_lock_until k) (o k) (suc (o k)) _ h
          (λ j ne. (refl, refl, ground arith)) (λ t. tt) (λ t g. g) (omega arith, ground arith)
          (do_try_lockwait-Ends L W n few k i mine (o k) (below k) (load k s)
            (counted k (o k + 0) (o k) (omega arith) (h k)))
    called-Kept (try_locks k) h =
        uncounted k outside outside _ h (λ j. (refl, refl)) (λ t. tt) (λ t g. tt)
          (try_lock-Ends L W n few k i mine (o k) (load k s))
    called-Kept (unlocks k) h =
        uncounted k outside outside _ h (λ j. (refl, refl)) (λ t. tt) (λ t g. tt)
          (unlock-Ends L W n few k i mine (o k) (load k s))
    called-Kept (locks_shared k) h =
        uncounted k (reported_shared k) (in_lock_shared k) _ h (λ j. (refl, refl)) (λ t. tt)
          (λ t g. g) (lock_shared-Ends L W n few k i mine (o k) (load k s))
    called-Kept (try_locks_shared k) h =
        uncounted k outside outside _ h (λ j. (refl, refl)) (λ t. tt) (λ t g. tt)
          (try_lock_shared-Ends L W n few k i mine (o k) (load k s))
    called-Kept (unlocks_shared k) h =
        uncounted k outside outside _ h (λ j. (refl, refl)) (λ t. tt) (λ t g. tt)
          (unlock_shared-Ends L W n few k i mine (o k) (load k s))
    called-Kept (try_locks_shared_until k) h =
        uncounted k outside (in_lock_shared_until k) _ h (λ j. (refl, refl)) (λ t. tt) (λ t g. g)
          (do_try_lock_sharedwait-Ends L W n few k i mine (o k) (load k s))

    pub act-Kept :
        (a : Action Method) (p : Place)
        → ((j : ℕ) → Held Rep n (o j + stays j p) (load j s))
        → Fits i p s
        → Kept Rep W n (target a p) o i s (act P W i a s p)
    unfolding act lock_wake lock_shared_wake
    act-Kept (call m) outside h f = called-Kept m h
    act-Kept (call m) (reported k) h f = called-Kept m h
    act-Kept (call m) (reported_shared k) h f = called-Kept m h
    act-Kept (wake _) (in_lock k) h f =
        turned k (in_lock k) (reported k) (woken k) (suc (o k)) (suc (o k))
          (lock_wake P W k i (load k s)) h (λ j ne. (ground arith, ground arith, ground arith))
          (λ t. tt) (λ t g. g) (ground arith, ground arith)
          (counted k (o k + waits k (in_lock k)) (suc (o k)) (ground arith) (h k), refl, f)
    act-Kept (wake _) (woken k) h f =
        turned k (woken k) (reported k) (in_lock k) (suc (o k)) (suc (o k)) _ h
          (λ j ne. (ground arith, ground arith, ground arith)) (λ t. tt) (λ t g. g)
          (ground arith, ground arith)
          (lock_loop-Ends L W n few k i mine (o k) (load k s)
            (counted k (o k + waits k (woken k)) (suc (o k)) (ground arith) (h k)) f)
    act-Kept (wake _) (in_lock_shared k) h f =
        uncounted k (reported_shared k) (woken_shared k) (lock_shared_wake P W k i (load k s)) h
          (λ j. (refl, refl)) (λ t. tt) (λ t g. g) (λ g. (g, refl, f))
    act-Kept (wake _) (woken_shared k) h f =
        uncounted k (reported_shared k) (in_lock_shared k) _ h (λ j. (refl, refl)) (λ t. tt)
          (λ t g. g) (λ g. lock_shared_loop-Ends L W n few k i mine (o k) (load k s) g f)
    act-Kept (wake false) (in_lock_until k) h f =
        turned k (in_lock_until k) outside (in_lock_until k) (o k) (suc (o k)) _ h
          (λ j ne. (ground arith, refl, ground arith)) (λ t. tt) (λ t g. g)
          (omega arith, ground arith)
          (try_lock_loop-Ends L W n few k i mine (o k) (load k s)
            (counted k (o k + waits k (in_lock_until k)) (suc (o k)) (ground arith) (h k)) f)
    act-Kept (wake true) (in_lock_until k) h f =
        turned k (in_lock_until k) outside (in_lock_until k) (o k) (suc (o k)) _ h
          (λ j ne. (ground arith, refl, ground arith)) (λ t. tt) (λ t g. g)
          (omega arith, ground arith)
          (do_try_lockwait_timeout-Ends L W n few k i mine (o k) (load k s)
            (counted k (o k + waits k (in_lock_until k)) (suc (o k)) (ground arith) (h k)))
    act-Kept (wake false) (in_lock_shared_until k) h f =
        uncounted k outside (in_lock_shared_until k) _ h (λ j. (refl, refl)) (λ t. tt) (λ t g. g)
          (λ g. try_lock_shared_loop-Ends L W n few k i mine (o k) (load k s) g f)
    act-Kept (wake true) (in_lock_shared_until k) h f =
        uncounted k outside (in_lock_shared_until k) _ h (λ j. (refl, refl)) (λ t. tt) (λ t g. g)
          (λ g. do_try_lock_sharedwait_timeout-Ends L W n few k i mine (o k) (load k s) g f)
    act-Kept _ p h f = tt
