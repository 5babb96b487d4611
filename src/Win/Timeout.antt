-- ===== src/Win/Timeout.antt =====
-- include/win_native_mutex.hpp and include/win_semaphore.hpp: how long the waits with a timeout are.
use yamc.Common.{
  ℕ, ◌+◌, ◌-◌, ◌*◌, ◌/◌, ◌^◌, ◌<◌, ◌≤◌, ◌≡◌, ap, ◌∙◌, refl, true, false, leb, pos, negsuc, minus,
  arith,
}
use yamc.Win.{
  to_msec, dword, infinite, timeout_in_msec, Win32, conclude, do_try_lockwait, do_try_acquirewait,
  try_lock_for, try_acquire_for, try_lock_until, try_acquire_until,
}

minus-negsuc : (a b c : ℕ) → a + c + 1 ≡ b → minus a b ≡ negsuc c
minus-negsuc a b c e =
    let below : leb b a ≡ false = ground arith in rw below (ap negsuc (omega arith))

-- The value that is converted for a timeout that lies `d` nanoseconds back.
past_timeout :
    (d c q : ℕ)
    → c + 1 + 999999 ≡ d
    → (c + 1) / 1000000 ≡ q + 1
    → q + 1 < 2 ^ 32
    → timeout_in_msec (negsuc (d - 1)) ≡ 2 ^ 32 - (q + 1)
unfolding timeout_in_msec
past_timeout d c q e f few =
    ap (λ t. dword (to_msec t)) (minus-negsuc 999999 (d - 1 + 1) c (omega arith))
    ∙ ap dword (minus-negsuc 0 ((c + 1) / 1000000) q (omega arith))
    ∙ omega arith

module _ {S : Type 0} (W : Win32 S) where
  -- A timeout of at most 2 ^ 32 - 2 milliseconds: `try_lock_for` and `try_acquire_for` wait for a number of
  -- milliseconds that is at least as long, by less than one millisecond too long, and not `INFINITE`.
  pub timeout_rounds_up :
      (t : ℕ) (s : S)
      → t ≤ (2 ^ 32 - 2) * 1000000
      → (m : ℕ) × (t ≤ m * 1000000)
        × (m * 1000000 < t + 1000000)
        × (m < infinite)
        × (try_lock_for W (pos t) s ≡ conclude W m (W.wait_for_single_object m s))
        × (try_acquire_for W true (pos t) s ≡ conclude W m (W.wait_for_single_object m s))
  unfolding try_lock_for try_acquire_for do_try_lockwait do_try_acquirewait timeout_in_msec
  timeout_rounds_up t s small =
      (timeout_in_msec (pos t), omega arith, omega arith, omega arith, refl, refl)

  -- For a point in time `d` nanoseconds before `now`, with 1999999 ≤ d < 10 ^ 6 * 2 ^ 32, `try_lock_until`
  -- and `try_acquire_until` wait for 2 ^ 32 - k milliseconds, where k is at least 1 and k * 10 ^ 6 is at most
  -- `d`, by less than 1999999 less; that is `INFINITE` for `d` below 2999999.
  pub past_deadline_waits :
      (a d : ℕ) (s : S)
      → 1999999 ≤ d
      → d < 1000000 * 2 ^ 32
      → (k : ℕ) × (1 ≤ k)
        × (k * 1000000 ≤ d)
        × (d < k * 1000000 + 1999999)
        × (d < 2999999 → 2 ^ 32 - k ≡ infinite)
        × (try_lock_until W a (a + d) s
            ≡ conclude W (2 ^ 32 - k) (W.wait_for_single_object (2 ^ 32 - k) s))
        × (try_acquire_until W true a (a + d) s
            ≡ conclude W (2 ^ 32 - k) (W.wait_for_single_object (2 ^ 32 - k) s))
  unfolding try_lock_until try_acquire_until do_try_lockwait do_try_acquirewait
  past_deadline_waits a d s far near =
      let k = (d - 999999) / 1000000 in
      let back : minus a (a + d) ≡ negsuc (d - 1) = minus-negsuc a (a + d) (d - 1) (omega arith) in
      let long : timeout_in_msec (minus a (a + d)) ≡ 2 ^ 32 - k =
        ap timeout_in_msec back
        ∙ past_timeout d (d - 999999 - 1) (k - 1) (omega arith) (omega arith) (omega arith)
        ∙ omega arith in
      let waits = ap (λ m. conclude W m (W.wait_for_single_object m s)) long in
      (k, omega arith, omega arith, omega arith, λ soon. omega arith, waits, waits)
