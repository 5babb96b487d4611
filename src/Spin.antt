-- ===== src/Spin.antt =====
-- include/naive_spin_mutex.hpp, include/ttas_spin_mutex.hpp, include/yamc_backoff_spin.hpp: mutexes that
-- spin on an atomic integer. Each access to it is a step of its own. `compare_exchange_weak` may fail
-- although the values agree; whether it does is part of a thread's action. The memory order does not
-- enter.
pub mod Backoff
pub mod Exclusion
pub mod Examples
use yamc.Common.{ℕ, Bool, true, false, if◌then◌else◌, ◌==◌, ◌&&◌, not, replicate}
use yamc.Threads.{Turn, moved, refused, silent, System}

-- The template parameter `BackoffPolicy`: its state, and `wait` with whether it yields.
pub record BackoffPolicy (B : Type 0) : Type 0 where
  pub initial : B
  pub wait : B → B × Bool

-- `state_.compare_exchange_weak(expected, 1)` with `expected == 0`.
abbrev pub compare_exchange_weak : Bool → ℕ → Bool × ℕ
compare_exchange_weak spurious m = if not spurious && (m == 0) then (true, 1) else (false, m)

-- A thread is in `lock` before its next `compare_exchange_weak` or, in `spin_ttas`, before its next
-- `load`.
pub data Place (B : Type 0) : Type 0 where
  outside owner : Place B
  swapping loading : B → Place B

-- `goes_on` is the next round of a thread in `lock`.
pub data Act : Type 0 where
  locks try_locks goes_on : (spurious : Bool) → Act
  unlocks : Act

module _ {B : Type 0} (P : BackoffPolicy B) where
  open P use {initial, wait}

  -- `spin` and `spin_weak`: one test of the loop of `lock`, and its body if the test fails.
  pub naive_round : Bool → B → ℕ → Turn ℕ (Place B)
  naive_round spurious b m =
      let (done, m') = compare_exchange_weak spurious m in
      moved m' (if done then owner else swapping (wait b).0) silent

  -- `try_lock` of all three.
  pub try_lock : Bool → ℕ → Turn ℕ (Place B)
  try_lock spurious m =
      let (done, m') = compare_exchange_weak spurious m in
      moved m' (if done then owner else outside) silent

  pub unlock : ℕ → Turn ℕ (Place B)
  unlock m = moved 0 outside silent

  pub naive_act : ℕ → Act → ℕ → Place B → Turn ℕ (Place B)
  unfolding naive_round try_lock unlock
  naive_act i (locks sp) m outside = naive_round sp initial m
  naive_act i (try_locks sp) m outside = try_lock sp m
  naive_act i (goes_on sp) m (swapping b) = naive_round sp b m
  naive_act i unlocks m owner = unlock m
  naive_act i _ m _ = refused

  -- `spin_ttas`: the inner loop of `lock`, once.
  pub ttas_load : B → ℕ → Turn ℕ (Place B)
  ttas_load b m = moved m (if m == 0 then swapping b else loading (wait b).0) silent

  -- The test of its outer loop.
  pub ttas_swap : Bool → B → ℕ → Turn ℕ (Place B)
  ttas_swap spurious b m =
      let (done, m') = compare_exchange_weak spurious m in
      moved m' (if done then owner else loading b) silent

  pub ttas_act : ℕ → Act → ℕ → Place B → Turn ℕ (Place B)
  unfolding ttas_load ttas_swap try_lock unlock
  ttas_act i (locks sp) m outside = ttas_load initial m
  ttas_act i (try_locks sp) m outside = try_lock sp m
  ttas_act i (goes_on sp) m (loading b) = ttas_load b m
  ttas_act i (goes_on sp) m (swapping b) = ttas_swap sp b m
  ttas_act i unlocks m owner = unlock m
  ttas_act i _ m _ = refused

-- A new mutex, and `n` threads that do not use it yet.
abbrev pub init : {B : Type 0} → ℕ → System ℕ (Place B)
init n = record { shared = 0; threads = replicate n outside }
