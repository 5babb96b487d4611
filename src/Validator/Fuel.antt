-- ===== src/Validator/Fuel.antt =====
-- include/yamc_lock_validator.hpp: an answer of the search at some fuel is its answer at any larger fuel.
use native.Mathlib.Numerals.{unary_clauses}
use mathlib.Core.Option.{some-injective, none-ne-some}
use yamc.Common.{
  ap, ℕ, zero, suc, ◌+◌, ◌≡◌, refl, Bool, true, false, Option, none, some, List, [], ◌∷◌, ◌⊎◌, inl,
  inr, arith, if◌then◌else◌, sym, ◌∙◌,
}
use yamc.Validator.{Table, enqueue, push_waiter, Entry, scan_waiters, scan_entries, find_closepath}

answer_cases : (o : Option Bool) → (o ≡ none) ⊎ ((b : Bool) × (o ≡ some b))
answer_cases none = inl refl
answer_cases (some b) = inr (b, refl)

module _ (go go' : ℕ → Option Bool)
    (more : (w : ℕ) (b : Bool) → go w ≡ some b → go' w ≡ some b) where
  more_waiters :
      (ws : List ℕ) (b : Bool) → scan_waiters go ws ≡ some b → scan_waiters go' ws ≡ some b
  unfolding scan_waiters
  more_waiters [] b h = h
  more_waiters (w ∷ ws) b h = elim (answer_cases (go w)) [
    | inl e ↦ ground (arith, e, h)
    | inr (c, e) ↦ ground (arith, more w c e, more_waiters ws b)
  ]

  more_entries :
      (end t : ℕ) (es : List Entry) (b : Bool)
      → scan_entries go end t es ≡ some b
      → scan_entries go' end t es ≡ some b
  unfolding scan_entries
  more_entries end t [] b h = h
  more_entries end t (e ∷ es) b h = elim (answer_cases (scan_waiters go e.waiters)) [
    | inl n ↦ ground (arith, n, h, more_entries end t es b)
    | inr (c, f) ↦ ground (arith, more_waiters e.waiters c f, more_entries end t es b)
  ]

module _ (m : List Entry) (end : ℕ) where
  find_more :
      (k t : ℕ) (b : Bool)
      → find_closepath k m end t ≡ some b
      → find_closepath (suc k) m end t ≡ some b
  unfolding find_closepath
  find_more zero t b h = ground (arith, h)
  find_more (suc k) t b h =
      more_entries (find_closepath k m end) (find_closepath (suc k) m end) (λ w c. find_more k w c)
        end t m b h

  pub find_monotone :
      (j k t : ℕ) (b : Bool)
      → find_closepath k m end t ≡ some b
      → find_closepath (k + j) m end t ≡ some b
  find_monotone zero k t b h = simp unary_clauses h
  find_monotone (suc j) k t b h =
      simp unary_clauses (find_more (k + j) t b (find_monotone j k t b h))

module _ (k tid : ℕ) (s : Table) where
  pub enqueue_runs :
      (fuel : ℕ) (b : Bool)
      → find_closepath fuel (push_waiter k tid s).mutexmap k tid ≡ some b
      → enqueue fuel k tid s ≡ some (if b then false else true, push_waiter k tid s)
  unfolding enqueue
  enqueue_runs fuel b e = ground (arith, e)

  enqueue_ends :
      (fuel : ℕ)
      → find_closepath fuel (push_waiter k tid s).mutexmap k tid ≡ none
      → enqueue fuel k tid s ≡ none
  unfolding enqueue
  enqueue_ends fuel e = ground (arith, e)

  pub enqueue_monotone :
      (j fuel : ℕ) (b : Bool) (t : Table)
      → enqueue fuel k tid s ≡ some (b, t)
      → (enqueue (fuel + j) k tid s ≡ some (b, t)) × (t ≡ push_waiter k tid s)
  enqueue_monotone j fuel b t h =
      elim (answer_cases (find_closepath fuel (push_waiter k tid s).mutexmap k tid)) [
        | inl e ↦ absurd (none-ne-some _ (sym (enqueue_ends fuel e) ∙ h))
        | inr (c, e) ↦
            let same = sym (enqueue_runs fuel c e) ∙ h in
            (
              enqueue_runs (fuel + j) c
                    (find_monotone (push_waiter k tid s).mutexmap k j fuel tid c e)
                  ∙ same,
              sym (ap (λ p. p.1) (some-injective _ _ same)),
            )
      ]
