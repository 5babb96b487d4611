-- ===== src/ScopedLock.antt =====
-- include/yamc_scoped_lock.hpp: `yamc::scoped_lock`, for one thread. The mutexes and `std::lock` are given
-- by an interface; a mutex is a number, and the template parameters are a list of them.
pub mod Scopes
pub mod Examples
use yamc.Common.{
  ℕ, suc, ◌+◌, ◌<◌, ◌≡◌, Bool, true, false, Option, some, none, List, [], ◌∷◌, ◌==◌, if◌then◌else◌,
}

-- How often a list names a mutex.
abbrev pub times : ℕ → List ℕ → ℕ
times k [] = 0
times k (m ∷ ms) = (if m == k then 1 else 0) + times k ms

-- What the thread calls: `lock` and `std::lock` say whether they return or throw, `unlock` is `none` where
-- its requirement is violated. `held` is how often the thread holds each mutex.
pub record Mutexes (S : Type 0) : Type 0 where
  pub lock : ℕ → S → Bool × S
  pub std_lock : List ℕ → S → Bool × S
  pub unlock : ℕ → S → Option S
  pub held : S → ℕ → ℕ

-- The documented behaviour: a lock that throws leaves nothing locked, one that returns has locked its
-- arguments, and a mutex that is held can be unlocked.
pub record Lawful {S : Type 0} (M : Mutexes S) : Type 0 where
  pub locks :
      (k : ℕ) (s : S) (j : ℕ)
      → M.held (M.lock k s).1 j ≡ M.held s j + (if (M.lock k s).0 then times j (k ∷ []) else 0)
  pub std_locks :
      (ks : List ℕ) (s : S) (j : ℕ)
      → M.held (M.std_lock ks s).1 j ≡ M.held s j + (if (M.std_lock ks s).0 then times j ks else 0)
  pub unlocks :
      (k : ℕ) (s : S)
      → 0 < M.held s k
      → (t : S) × (M.unlock k s ≡ some t) × ((j : ℕ) → M.held s j ≡ M.held t j + times j (k ∷ []))

module _ {S : Type 0} (M : Mutexes S) where
  open M use {lock, std_lock, unlock}

  -- The constructor: it locks nothing without mutexes, and calls `lock` of a single one.
  pub scoped_lock : List ℕ → S → Bool × S
  scoped_lock [] s = (true, s)
  scoped_lock (m ∷ []) s = lock m s
  scoped_lock (m ∷ k ∷ ms) s = std_lock (m ∷ k ∷ ms) s

  -- The constructor with `std::adopt_lock`.
  pub adopt : List ℕ → S → Bool × S
  adopt ms s = (true, s)

  pub invoke_unlock : List ℕ → S → Option S
  invoke_unlock [] s = some s
  invoke_unlock (m ∷ ms) s = elim (unlock m s) [ none ↦ none | some t ↦ invoke_unlock ms t ]

  -- The destructor.
  pub destroy : List ℕ → S → Option S
  unfolding invoke_unlock
  destroy [] s = some s
  destroy (m ∷ []) s = unlock m s
  destroy (m ∷ k ∷ ms) s = invoke_unlock (m ∷ k ∷ ms) s
