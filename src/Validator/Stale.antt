-- ===== src/Validator/Stale.antt =====
-- include/yamc_lock_validator.hpp: `enqueue` leaves a thread among the waiters when it returns `false`.
use yamc.Common.{ℕ, zero, suc, ◌≡◌, ◌≢◌, refl, [], ◌∷◌, none, some, false, arith}
use yamc.Validator.{Table, enqueue, find_closepath, push_waiter}

-- Thread `a` owns mutex `k` and waits for mutex `l` of thread `b`; thread `c` owns mutex `j`.
abbrev pub crossed : ℕ → ℕ → ℕ → ℕ → ℕ → ℕ → Table
crossed k l j a b c = record {
  counter = 3;
  mutexmap =
      record { key = k; mid = 1; owners = a ∷ []; waiters = [] }
      ∷ record { key = l; mid = 2; owners = b ∷ []; waiters = a ∷ [] }
      ∷ record { key = j; mid = 3; owners = c ∷ []; waiters = [] }
      ∷ [];
}

module _ (k l j a b c : ℕ) (keys : (k ≢ l) × (k ≢ j) × (l ≢ j))
    (threads : (a ≢ b) × (a ≢ c) × (b ≢ c)) where
  -- `b` asks for `k`.
  reports :
      (fuel : ℕ)
      → enqueue (suc (suc fuel)) k b (crossed k l j a b c)
        ≡ some (false, push_waiter k b (crossed k l j a b c))
  unfolding enqueue
  reports fuel = ground arith

  -- The table that the report leaves, with `b` waiting for `j` too.
  abbrev left_behind : Table
  left_behind = push_waiter j b (push_waiter k b (crossed k l j a b c))

  no_end :
      (fuel : ℕ)
      → (find_closepath fuel left_behind.mutexmap j a ≡ none)
        × (find_closepath fuel left_behind.mutexmap j b ≡ none)
  unfolding find_closepath
  no_end zero = (refl, refl)
  no_end (suc fuel) = (ground (arith, no_end fuel), ground (arith, no_end fuel))

  -- `enqueue` reports the deadlock when `b` asks for `k`, and leaves `b` among the waiters of `k`. If `b`
  -- goes on and asks for a mutex `j` of a third thread, whatever the fuel, the search does not end.
  pub stale_waiter_diverges :
      (fuel : ℕ)
      → (enqueue (suc (suc fuel)) k b (crossed k l j a b c)
          ≡ some (false, push_waiter k b (crossed k l j a b c)))
        × (enqueue fuel j b (push_waiter k b (crossed k l j a b c)) ≡ none)
  unfolding enqueue
  stale_waiter_diverges fuel = (reports fuel, ground (arith, no_end fuel))
