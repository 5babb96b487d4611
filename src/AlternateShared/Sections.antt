-- ===== src/AlternateShared/Sections.antt =====
-- include/alternate_shared_mutex.hpp: each section of a method, over a policy that keeps its contract,
-- passes its assertions and keeps the writers and readers apart.
use yamc.Common.{ℕ, suc, ◌+◌, ◌<◌, ◌≡◌, ◌⊎◌, inl, inr, Bool-cases, arith}
use yamc.Threads.{Turn, moved, refused, failed, settle}
use yamc.RwLock.Policy.{Policy, Lawful, max_count}
use yamc.AlternateShared.{
  lock_enter, lock_loop, try_lock, unlock, lock_shared_enter, lock_shared_loop, try_lock_shared,
  unlock_shared, do_try_lockwait_timeout, do_try_lock_sharedwait_timeout, Place, outside, in_lock,
  in_lock_until, in_lock_shared_until, owner, reader, granted,
}

-- What each place counts for: a waiting writer, a writer, a reader.
abbrev pub waits : Place → ℕ
waits in_lock = 1
waits in_lock_until = 1
waits _ = 0

abbrev pub owns : Place → ℕ
owns owner = 1
owns _ = 0

abbrev pub reads : Place → ℕ
reads reader = 1
reads _ = 0

module _ {State : Type 0} (Rep : State → ℕ → ℕ → ℕ → Type 0) where
  -- One writer alone, or readers alone.
  abbrev pub Held : State → ℕ → ℕ → ℕ → Type 0
  Held s k w r = Rep s k w r × ((w ≡ 0) ⊎ ((w ≡ 1) × (r ≡ 0)))

  -- A turn ends with the lock held rightly, where all other threads count for `k`, `w` and `r`.
  abbrev pub Keeps : ℕ → ℕ → ℕ → Turn State Place → Type 0
  Keeps k w r (moved s p n) = Held s (k + waits p) (w + owns p) (r + reads p)
  Keeps k w r refused = Unit
  Keeps k w r failed = ⊥

-- `k`, `w` and `r` count the threads other than the one whose turn it is.
module _ {State : Type 0} {P : Policy State} {Rep : State → ℕ → ℕ → ℕ → Type 0} (L : Lawful P Rep)
    (s : State) (k w r : ℕ) (few : (k < max_count) × (r < max_count)) where
  lock_enter-Keeps :
      (p : Place)
      → (w ≡ 0) × (r ≡ 0)
      → Rep s (suc k) w r
      → Keeps Rep k w r (settle (granted owner) p (lock_enter P s))
  unfolding lock_enter
  lock_enter-Keeps p z h =
      let (t, e, u) = L.after_wait_wlock_rep s k w r h in
      let (t', e', u') = L.acquire_wlock_rep t k (ground arith) in ground arith

  pub lock_loop-Keeps :
      (p : Place)
      → (waits p ≡ 1) × (owns p ≡ 0) × (reads p ≡ 0)
      → Held Rep s (suc k) w r
      → Keeps Rep k w r (settle (granted owner) p (lock_loop P s))
  unfolding lock_loop
  lock_loop-Keeps p at h = elim (Bool-cases (P.wait_wlock s)) [
    | inl busy ↦ rw (busy, lock_loop) (ground arith)
    | inr free ↦
        rw (free, lock_loop) (lock_enter-Keeps p (L.wait_wlock_free s (suc k) w r h.0 free) h.0)
  ]

  pub do_try_lockwait_timeout-Keeps :
      Held Rep s (suc k) w r
      → Keeps Rep k w r (settle (granted owner) in_lock_until (do_try_lockwait_timeout P s))
  unfolding do_try_lockwait_timeout
  do_try_lockwait_timeout-Keeps h = elim (Bool-cases (P.wait_wlock s)) [
    | inl busy ↦
        let (t, e, u) = L.after_wait_wlock_rep s k w r h.0 in
        rw (busy, do_try_lockwait_timeout) (ground arith)
    | inr free ↦
        rw (free, do_try_lockwait_timeout)
          (lock_enter-Keeps in_lock_until (L.wait_wlock_free s (suc k) w r h.0 free) h.0)
  ]

  pub try_lock-Keeps :
      Held Rep s k w r → Keeps Rep k w r (settle (granted owner) outside (try_lock P s))
  unfolding try_lock
  try_lock-Keeps h = elim (Bool-cases (P.wait_wlock s)) [
    | inl busy ↦ rw (busy, try_lock) (ground arith)
    | inr free ↦
        let z = L.wait_wlock_free s k w r h.0 free in
        let (t, e, u) = L.acquire_wlock_rep s k (ground arith) in rw (free, try_lock) (ground arith)
  ]

  pub unlock-Keeps :
      Held Rep s k (suc w) r → Keeps Rep k w r (settle (granted outside) owner (unlock P s))
  unfolding unlock
  unlock-Keeps h = let (t, e, u) = L.release_wlock_rep s k (ground arith) in ground arith

  lock_shared_enter-Keeps :
      (p : Place)
      → w ≡ 0
      → Rep s k w r
      → Keeps Rep k w r (settle (granted reader) p (lock_shared_enter P s))
  unfolding lock_shared_enter
  lock_shared_enter-Keeps p z h =
      let (t, e, u) = L.acquire_rlock_rep s k r (ground arith) few.1 in ground arith

  pub lock_shared_loop-Keeps :
      (p : Place)
      → (waits p ≡ 0) × (owns p ≡ 0) × (reads p ≡ 0)
      → Held Rep s k w r
      → Keeps Rep k w r (settle (granted reader) p (lock_shared_loop P s))
  unfolding lock_shared_loop
  lock_shared_loop-Keeps p at h = elim (Bool-cases (P.wait_rlock s)) [
    | inl busy ↦ rw (busy, lock_shared_loop) (ground arith)
    | inr free ↦
        rw (free, lock_shared_loop)
          (lock_shared_enter-Keeps p (L.wait_rlock_free s k w r h.0 free) h.0)
  ]

  pub try_lock_shared-Keeps :
      Held Rep s k w r → Keeps Rep k w r (settle (granted reader) outside (try_lock_shared P s))
  unfolding try_lock_shared
  try_lock_shared-Keeps h = elim (Bool-cases (P.wait_rlock s)) [
    | inl busy ↦ rw (busy, try_lock_shared) (ground arith)
    | inr free ↦
        let z = L.wait_rlock_free s k w r h.0 free in
        let (t, e, u) = L.acquire_rlock_rep s k r (ground arith) few.1 in
        rw (free, try_lock_shared) (ground arith)
  ]

  pub do_try_lock_sharedwait_timeout-Keeps :
      Held Rep s k w r
      → Keeps Rep k w r
          (settle (granted reader) in_lock_shared_until (do_try_lock_sharedwait_timeout P s))
  unfolding do_try_lock_sharedwait_timeout
  do_try_lock_sharedwait_timeout-Keeps h = elim (Bool-cases (P.wait_rlock s)) [
    | inl busy ↦ rw (busy, do_try_lock_sharedwait_timeout) (ground arith)
    | inr free ↦
        rw (free, do_try_lock_sharedwait_timeout)
          (lock_shared_enter-Keeps in_lock_shared_until (L.wait_rlock_free s k w r h.0 free) h.0)
  ]

  pub unlock_shared-Keeps :
      Held Rep s k w (suc r) → Keeps Rep k w r (settle (granted outside) reader (unlock_shared P s))
  unfolding unlock_shared
  unlock_shared-Keeps h =
      let (t, last, e, u, _) = L.release_rlock_rep s k r (ground arith) in ground arith
