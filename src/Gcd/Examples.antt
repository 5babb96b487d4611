-- ===== src/Gcd/Examples.antt =====
-- include/gcd_semaphore.hpp: the theorem over a semaphore that is its number of permits.
use yamc.Common.{ℕ, zero, suc, ◌+◌, ◌-◌, ◌<◌, ◌≡◌, refl, true, some, ltb, pos, negsuc, arith}
use yamc.Errors.{done}
use yamc.Gcd.{
  Kern, kern_success, kern_operation_timed_out, Dispatch, construct, release, try_acquire,
  try_acquire_for, try_acquire_until, try_acquire_until_of,
}
use yamc.Gcd.Permits.{Counts, waits_decide}

abbrev waited : ℕ → Kern × ℕ
waited zero = (kern_operation_timed_out, 0)
waited (suc n) = (kern_success, n)

abbrev counter : Dispatch ℕ
counter = record {
  semaphore_create = λ n. n;
  semaphore_signal = λ s. s + 1;
  semaphore_wait = λ t s. waited s;
}

counter-Counts : Counts counter (λ s. s)
counter-Counts = record {
  starts = λ n. refl;
  adds = λ s. refl;
  takes = λ t s. takes_some s;
  takes_one = λ t s. takes_last s;
  expires = λ t s limited. expires_empty s;
  expires_at_none = λ t s limited. stays_empty s;
}
  where
    takes_some : (s : ℕ) → 0 < s → (waited s).0 ≡ kern_success
    takes_some zero h = absurd (omega (arith, h))
    takes_some (suc n) h = refl

    takes_last : (s : ℕ) → 0 < s → (waited s).1 + 1 ≡ s
    takes_last zero h = absurd (omega (arith, h))
    takes_last (suc n) h = omega arith

    expires_empty : (s : ℕ) → s ≡ 0 → (waited s).0 ≡ kern_operation_timed_out
    expires_empty zero h = refl
    expires_empty (suc n) h = absurd (omega (arith, h))

    stays_empty : (s : ℕ) → s ≡ 0 → (waited s).1 ≡ 0
    stays_empty zero h = refl
    stays_empty (suc n) h = absurd (omega (arith, h))

-- One permit, and two more.
waits_decide_example :
    (s t : ℕ) × (construct counter 5 (pos 1) ≡ some s)
    × (release counter true (pos 2) s ≡ (done true, t))
    × ((try_acquire counter true t).0 ≡ ltb 0 (1 + 2))
    × ((try_acquire counter true t).1 ≡ 1 + 2 - 1)
    × ((try_acquire_for counter true (pos 7) t).0 ≡ done (ltb 0 (1 + 2)))
    × ((try_acquire_for counter true (pos 7) t).1 ≡ 1 + 2 - 1)
    × ((try_acquire_until counter true (negsuc 7) t).0 ≡ done (ltb 0 (1 + 2)))
    × ((try_acquire_until counter true (negsuc 7) t).1 ≡ 1 + 2 - 1)
    × ((try_acquire_until_of counter true 9 100 8 t).0 ≡ done (ltb 0 (1 + 2)))
    × ((try_acquire_until_of counter true 9 100 8 t).1 ≡ 1 + 2 - 1)
waits_decide_example =
    waits_decide counter (λ s. s) counter-Counts 5 1 2 (pos 7) (negsuc 7) 9 100 8 (omega arith)
