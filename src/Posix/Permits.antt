-- ===== src/Posix/Permits.antt =====
-- include/posix_semaphore.hpp: the permits of `yamc::posix::counting_semaphore`.
use yamc.Common.{
  ℕ, zero, suc, ◌+◌, ◌<◌, ◌≤◌, ◌≡◌, ◌⊎◌, ◌%◌, refl, sym, inl, inr, ap, subst, ◌∙◌, true, some, leb,
  pos, negsuc, unsigned_mod, eq_or_ne, arith,
}
use yamc.Errors.{Answer, done, thrown}
use yamc.Posix.{Errno, eoverflow, success, failure}
use yamc.Posix.Semaphore.{Sem, construct, post_all, release}

-- What POSIX says of the value of a semaphore that no other thread uses; `top` is `SEM_VALUE_MAX`.
record Counts {S : Type 0} (P : Sem S) (value : S → ℕ) (top : ℕ) : Type 0 where
  pub init : (n : ℕ) → n ≤ top → value (P.sem_init n) ≡ n
  pub post : (s : S) → value s < top → (P.sem_post s).0 ≡ success
  pub post_adds : (s : S) → value s < top → value (P.sem_post s).1 ≡ value s + 1
  pub full : (s : S) → value s ≡ top → (P.sem_post s).0 ≡ failure eoverflow
  pub full_keeps : (s : S) → value s ≡ top → value (P.sem_post s).1 ≡ value s

module _ {S : Type 0} (P : Sem S) (value : S → ℕ) (top : ℕ) (law : Counts P value top) where
  -- What is left after `u` posts from `v` permits on.
  abbrev Posted : ℕ → ℕ → Answer Errno × S → Type 0
  Posted v u r =
      ((v + u ≤ top) × (r.0 ≡ done true) × (value r.1 ≡ v + u))
      ⊎ ((top < v + u) × (r.0 ≡ thrown eoverflow) × (value r.1 ≡ top))

  post_on :
      (u : ℕ) (s : S)
      → (P.sem_post s).0 ≡ success
      → post_all P (suc u) s ≡ post_all P u (P.sem_post s).1
  unfolding post_all
  post_on u s e = rw (e, post_all) refl

  post_fails :
      (u : ℕ) (s : S)
      → (P.sem_post s).0 ≡ failure eoverflow
      → post_all P (suc u) s ≡ (thrown eoverflow, (P.sem_post s).1)
  unfolding post_all
  post_fails u s e = rw (e, post_all) refl

  post_all-Posted : (u : ℕ) (s : S) → value s ≤ top → Posted (value s) u (post_all P u s)
  unfolding post_all
  post_all-Posted zero s small = inl (omega arith, refl, omega arith)
  post_all-Posted (suc u) s small = elim (eq_or_ne (value s) top) [
    | inl full ↦
        subst (Posted (value s) (suc u)) (sym (post_fails u s (law.full s full)))
          (inr (omega arith, refl, law.full_keeps s full ∙ full))
    | inr ne ↦
        let room : value s < top = omega (arith, ne, small) in
        let more = law.post_adds s room in
        subst (Posted (value s) (suc u)) (sym (post_on u s (law.post s room)))
          (elim (post_all-Posted u (P.sem_post s).1 (omega (arith, more, room))) [
            | inl all ↦ inl (omega (arith, all.0, more), all.1, omega (arith, all.2, more))
            | inr part ↦ inr (omega (arith, part.0, more), part.1, part.2)
          ])
  ]

  -- Over a semaphore that counts up to `top`, at most 2 ^ 32 - 1, and that no other thread uses: the constructor
  -- with d permits, at most `max()`, passes its assertion, and then `release` of u permits returns and leaves
  -- d + u, if those are at most `top`. Otherwise it throws with `EOVERFLOW`, and the permits that it has
  -- added, up to `top`, stay. With a negative number it adds none.
  release_counts :
      (limit d u n : ℕ)
      → limit ≤ top
      → top < unsigned_mod
      → d ≤ limit
      → (s : S) × (construct P limit (pos d) ≡ some s)
        × (((d + u ≤ top)
              × ((release P (pos u) s).0 ≡ done true)
              × (value (release P (pos u) s).1 ≡ d + u))
            ⊎ ((top < d + u)
                × ((release P (pos u) s).0 ≡ thrown eoverflow)
                × (value (release P (pos u) s).1 ≡ top)))
        × ((release P (negsuc n) s).0 ≡ done true)
        × (value (release P (negsuc n) s).1 ≡ d)
  unfolding construct release
  release_counts limit d u n some_max word small =
      let s = P.sem_init d in
      let starts : value s ≡ d = law.init d (omega arith) in
      let fits : leb d limit ≡ true = ground arith in
      let same : d % unsigned_mod ≡ d = omega arith in
      (
        s,
        rw fits (ap (λ k. some (P.sem_init k)) same),
        subst (λ v. Posted v u (post_all P u s)) starts (post_all-Posted u s (omega arith)),
        refl,
        starts,
      )
