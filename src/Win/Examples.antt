-- ===== src/Win/Examples.antt =====
-- include/win_native_mutex.hpp and include/win_semaphore.hpp: the theorems over a mutex that stays owned and
-- notes how long it was waited for.
use yamc.Common.{ℕ, ◌+◌, ◌-◌, ◌*◌, ◌^◌, ◌<◌, ◌≤◌, ◌≡◌, true, pos, arith}
use yamc.Win.{
  infinite, Win32, timed_out, conclude, try_lock_for, try_acquire_for, try_lock_until,
  try_acquire_until,
}
use yamc.Win.Timeout.{timeout_rounds_up, past_deadline_waits}

abbrev owned : Win32 ℕ
owned = record {
  wait_for_single_object = λ m s. (timed_out, s + m);
  sleep = λ m s. s + m;
  release_mutex = λ s. s;
  release_semaphore = λ n s. (true, s);
}

-- One and a half milliseconds.
timeout_rounds_up_example :
    (m : ℕ) × (1500000 ≤ m * 1000000)
    × (m * 1000000 < 1500000 + 1000000)
    × (m < infinite)
    × (try_lock_for owned (pos 1500000) 0 ≡ conclude owned m (owned.wait_for_single_object m 0))
    × (try_acquire_for owned true (pos 1500000) 0
        ≡ conclude owned m (owned.wait_for_single_object m 0))
timeout_rounds_up_example = timeout_rounds_up owned 1500000 0 (omega arith)

-- Two milliseconds back.
past_deadline_waits_example :
    (k : ℕ) × (1 ≤ k)
    × (k * 1000000 ≤ 2000000)
    × (2000000 < k * 1000000 + 1999999)
    × (◌<◌ 2000000 2999999 → 2 ^ 32 - k ≡ infinite)
    × (try_lock_until owned 5 (5 + 2000000) 0
        ≡ conclude owned (2 ^ 32 - k) (owned.wait_for_single_object (2 ^ 32 - k) 0))
    × (try_acquire_until owned true 5 (5 + 2000000) 0
        ≡ conclude owned (2 ^ 32 - k) (owned.wait_for_single_object (2 ^ 32 - k) 0))
past_deadline_waits_example = past_deadline_waits owned 5 2000000 0 (omega arith) (omega arith)
