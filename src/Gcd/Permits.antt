-- ===== src/Gcd/Permits.antt =====
-- include/gcd_semaphore.hpp: the permits of `yamc::gcd::counting_semaphore`.
use yamc.Common.{
  ℕ, zero, suc, ◌+◌, ◌-◌, ◌<◌, ◌≤◌, ◌≡◌, refl, sym, subst, ap, ◌∙◌, inl, inr, true, false, some,
  leb, ltb, ℤ, pos, eq_or_ne, arith,
}
use yamc.Errors.{done}
use yamc.Gcd.{
  DispatchTime, now, forever, from_now, from_epoch, kern_success, kern_operation_timed_out,
  Dispatch, from_unix_epoch, timed, is_success, construct, signal_all, release, try_acquire,
  try_acquire_for, try_acquire_until, try_acquire_until_of,
}

abbrev pub Limited : DispatchTime → Type 0
Limited forever = ⊥
Limited now = Unit {0}
Limited (from_now d) = Unit {0}
Limited (from_epoch d) = Unit {0}

-- What is documented of the calls on a semaphore that no other thread uses.
pub record Counts {S : Type 0} (P : Dispatch S) (value : S → ℕ) : Type 0 where
  pub starts : (n : ℕ) → value (P.semaphore_create n) ≡ n
  pub adds : (s : S) → value (P.semaphore_signal s) ≡ value s + 1
  pub takes : (t : DispatchTime) (s : S) → 0 < value s → (P.semaphore_wait t s).0 ≡ kern_success
  pub takes_one :
      (t : DispatchTime) (s : S) → 0 < value s → value (P.semaphore_wait t s).1 + 1 ≡ value s
  pub expires :
      (t : DispatchTime) (s : S)
      → Limited t
      → value s ≡ 0
      → (P.semaphore_wait t s).0 ≡ kern_operation_timed_out
  pub expires_at_none :
      (t : DispatchTime) (s : S) → Limited t → value s ≡ 0 → value (P.semaphore_wait t s).1 ≡ 0

module _ {S : Type 0} (P : Dispatch S) (value : S → ℕ) (law : Counts P value) where
  signal_all-value : (u : ℕ) (s : S) → value (signal_all P u s) ≡ value s + u
  unfolding signal_all
  signal_all-value zero s = omega arith
  signal_all-value (suc u) s = omega (arith, signal_all-value u (P.semaphore_signal s), law.adds s)

  -- A wait with a limit takes a permit exactly if there is one.
  decides :
      (t : DispatchTime) (s : S)
      → Limited t
      → (is_success (P.semaphore_wait t s).0 ≡ ltb 0 (value s))
        × (timed (P.semaphore_wait t s).0 ≡ done (ltb 0 (value s)))
        × (value (P.semaphore_wait t s).1 ≡ value s - 1)
  decides t s limited = elim (eq_or_ne (value s) 0) [
    | inl none ↦
        let shut : ltb 0 (value s) ≡ false = ground (arith, none) in
        (
          rw (law.expires t s limited none) (sym shut),
          rw (law.expires t s limited none) (rw shut refl),
          omega (arith, law.expires_at_none t s limited none, none),
        )
    | inr ne ↦
        let pos_value : 0 < value s = omega (arith, ne) in
        let open_one : ltb 0 (value s) ≡ true = ground (arith, pos_value) in
        (
          rw (law.takes t s pos_value) (sym open_one),
          rw (law.takes t s pos_value) (rw open_one refl),
          omega (arith, law.takes_one t s pos_value),
        )
  ]

  -- Over a semaphore that counts and that no other thread uses: the constructor with d permits, at most
  -- `max()`, passes its assertion, and `release` of u permits returns. With the d + u permits that are then
  -- there, `try_acquire`, `try_acquire_for`, and `try_acquire_until` with a point in time of any clock do not
  -- throw, return true exactly if there is a permit, and then take one.
  pub waits_decide :
      (limit d u : ℕ) (rel abs : ℤ) (tp sys_now clock_now : ℕ)
      → d ≤ limit
      → (s t : S) × (construct P limit (pos d) ≡ some s)
        × (release P true (pos u) s ≡ (done true, t))
        × ((try_acquire P true t).0 ≡ ltb 0 (d + u))
        × (value (try_acquire P true t).1 ≡ d + u - 1)
        × ((try_acquire_for P true rel t).0 ≡ done (ltb 0 (d + u)))
        × (value (try_acquire_for P true rel t).1 ≡ d + u - 1)
        × ((try_acquire_until P true abs t).0 ≡ done (ltb 0 (d + u)))
        × (value (try_acquire_until P true abs t).1 ≡ d + u - 1)
        × ((try_acquire_until_of P true tp sys_now clock_now t).0 ≡ done (ltb 0 (d + u)))
        × (value (try_acquire_until_of P true tp sys_now clock_now t).1 ≡ d + u - 1)
  unfolding construct release try_acquire try_acquire_for try_acquire_until try_acquire_until_of
  waits_decide limit d u rel abs tp sys_now clock_now small =
      let s = P.semaphore_create d in
      let t = signal_all P u s in
      let fits : leb d limit ≡ true = ground arith in
      let permits : value t ≡ d + u = signal_all-value u s ∙ ap (λ v. v + u) (law.starts d) in
      let at = λ (x : DispatchTime) (limited : Limited x).
        subst
          (λ v.
            (is_success (P.semaphore_wait x t).0 ≡ ltb 0 v)
            × (timed (P.semaphore_wait x t).0 ≡ done (ltb 0 v))
            × (value (P.semaphore_wait x t).1 ≡ v - 1))
          permits (decides x t limited) in
      let other = from_epoch (from_unix_epoch tp sys_now clock_now) in
      (
        s,
        t,
        rw fits refl,
        refl,
        (at now tt).0,
        (at now tt).2,
        (at (from_now rel) tt).1,
        (at (from_now rel) tt).2,
        (at (from_epoch abs) tt).1,
        (at (from_epoch abs) tt).2,
        (at other tt).1,
        (at other tt).2,
      )
