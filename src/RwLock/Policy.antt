-- ===== src/RwLock/Policy.antt =====
-- include/yamc_rwlock_sched.hpp: the interface that both policies have, and its contract.
use yamc.Common.{ℕ, suc, ◌-◌, ◌<◌, ◌≡◌, Bool, true, false, Option, some, top_bit}

-- The template parameter `RwLockPolicy` of the shared mutexes: the static functions over its `state`.
-- `none` is a failed assertion.
pub record Policy (State : Type 0) : Type 0 where
  pub initial : State
  pub before_wait_wlock : State → Option State
  pub wait_wlock : State → Bool
  pub after_wait_wlock : State → Option State
  pub acquire_wlock : State → Option State
  pub release_wlock : State → Option State
  pub wait_rlock : State → Bool
  pub acquire_rlock : State → Option State
  pub release_rlock : State → Option (State × Bool)

-- The most waiting writers, or readers, that a policy counts.
abbrev pub max_count : ℕ
max_count = top_bit - 1

-- A step of the policy passes its assertion and ends in a state with the property.
abbrev pub Passes : {State : Type 0} → Option State → (State → Type 0) → Type 0
Passes {State} o P = (s : State) × (o ≡ some s) × P s

-- The contract: `Rep s k w r` says that `s` stands for `k` waiting writers, `w` writers and `r`
-- readers that hold the lock.
pub record Lawful {State : Type 0} (P : Policy State) (Rep : State → ℕ → ℕ → ℕ → Type 0)
    : Type 0 where
  pub initial_rep : Rep P.initial 0 0 0
  pub before_wait_wlock_rep :
      (s : State) (k w r : ℕ)
      → Rep s k w r
      → k < max_count
      → Passes (P.before_wait_wlock s) (λ t. Rep t (suc k) w r)
  pub after_wait_wlock_rep :
      (s : State) (k w r : ℕ) → Rep s (suc k) w r → Passes (P.after_wait_wlock s) (λ t. Rep t k w r)
  pub wait_wlock_free :
      (s : State) (k w r : ℕ) → Rep s k w r → P.wait_wlock s ≡ false → (w ≡ 0) × (r ≡ 0)
  pub wait_wlock_held : (s : State) (k : ℕ) → Rep s k 0 0 → P.wait_wlock s ≡ false
  pub acquire_wlock_rep :
      (s : State) (k : ℕ) → Rep s k 0 0 → Passes (P.acquire_wlock s) (λ t. Rep t k 1 0)
  pub release_wlock_rep :
      (s : State) (k : ℕ) → Rep s k 1 0 → Passes (P.release_wlock s) (λ t. Rep t k 0 0)
  pub wait_rlock_free : (s : State) (k w r : ℕ) → Rep s k w r → P.wait_rlock s ≡ false → w ≡ 0
  pub wait_rlock_idle : (s : State) (r : ℕ) → Rep s 0 0 r → P.wait_rlock s ≡ false
  pub acquire_rlock_rep :
      (s : State) (k r : ℕ)
      → Rep s k 0 r
      → r < max_count
      → Passes (P.acquire_rlock s) (λ t. Rep t k 0 (suc r))
  pub release_rlock_rep :
      (s : State) (k r : ℕ)
      → Rep s k 0 (suc r)
      → (t : State) × (last : Bool) × (P.release_rlock s ≡ some (t, last))
        × Rep t k 0 r
        × ((last ≡ true → r ≡ 0) × (r ≡ 0 → last ≡ true))
