-- ===== src/Checked/Shared/Members.antt =====
-- include/checked_shared_mutex.hpp: the vector `s_owner_` as a set of threads.
use yamc.Common.{
  ℕ, zero, suc, ◌≤◌, ◌≡◌, refl, List, [], ◌∷◌, ◌++◌, inl, inr, length, ◌==◌, Bool-cases, arith,
  subst, true,
}
use yamc.Fair.WaitQueue.Chain.{In, In-snoc}
use yamc.Validator.{remove_elem}
use yamc.Validator.WaitsFor.{In-remove_elem}

-- Distinct identifiers of threads below `n`.
abbrev pub Members : ℕ → List ℕ → Type 0
Members n [] = Unit {0}
Members n (x ∷ xs) = (1 ≤ x) × (x ≤ n) × (In x xs → ⊥) × Members n xs

pub snoc-Members :
    (n t : ℕ) (xs : List ℕ)
    → 1 ≤ t
    → t ≤ n
    → (In t xs → ⊥)
    → Members n xs
    → Members n (xs ++ t ∷ [])
snoc-Members n t [] low high new m = (low, high, (λ i. i), tt)
snoc-Members n t (x ∷ xs) low high new (l, h, ne, m) = (
  l,
  h,
  (λ i. elim (In-snoc t xs x i) [ inl j ↦ ne j | inr e ↦ new (inl (omega arith)) ]),
  snoc-Members n t xs low high (λ i. new (inr i)) m,
)

pub remove_elem-Members : (n t : ℕ) (xs : List ℕ) → Members n xs → Members n (remove_elem xs t)
remove_elem-Members n t [] m = tt
remove_elem-Members n t (x ∷ xs) (l, h, ne, m) = elim (Bool-cases (x == t)) [
  | inl e ↦ rw e (remove_elem-Members n t xs m)
  | inr e ↦ rw e (l, h, (λ i. ne (In-remove_elem xs t x i).0), remove_elem-Members n t xs m)
]

remove_elem-out : (t : ℕ) (xs : List ℕ) → (In t xs → ⊥) → remove_elem xs t ≡ xs
remove_elem-out t [] out = refl
remove_elem-out t (x ∷ xs) out = elim (Bool-cases (x == t)) [
  | inl e ↦ absurd (out (inl (ground arith)))
  | inr e ↦ rw (e, remove_elem-out t xs (λ i. out (inr i)))
]

out : (x t : ℕ) (xs : List ℕ) → (x == t) ≡ true → (In x xs → ⊥) → In t xs → ⊥
out x t xs e ne i = let same : t ≡ x = ground arith in ne (subst (λ y. In y xs) same i)

-- A member is taken out once.
pub length-remove_elem :
    (n t : ℕ) (xs : List ℕ) → Members n xs → In t xs → length xs ≡ suc (length (remove_elem xs t))
length-remove_elem n t [] m i = absurd i
length-remove_elem n t (x ∷ xs) (l, h, ne, m) i = elim (Bool-cases (x == t)) [
  | inl e ↦ rw (e, remove_elem-out t xs (out x t xs e ne))
  | inr e ↦ rw e (elim i [
    | inl f ↦ absurd (ground arith)
    | inr j ↦ omega (arith, length-remove_elem n t xs m j)
  ])
]

length-le-remove_elem :
    (n t : ℕ) (xs : List ℕ) → Members n xs → length xs ≤ suc (length (remove_elem xs t))
length-le-remove_elem n t [] m = omega arith
length-le-remove_elem n t (x ∷ xs) (l, h, ne, m) = elim (Bool-cases (x == t)) [
  | inl e ↦ rw (e, remove_elem-out t xs (out x t xs e ne)) (omega arith)
  | inr e ↦ rw e (omega (arith, length-le-remove_elem n t xs m))
]

-- Without the last thread they are members below it.
remove_last-Members :
    (n : ℕ) (xs : List ℕ) → Members (suc n) xs → Members n (remove_elem xs (suc n))
remove_last-Members n [] m = tt
remove_last-Members n (x ∷ xs) (l, h, ne, m) = elim (Bool-cases (x == suc n)) [
  | inl e ↦ rw e (remove_last-Members n xs m)
  | inr e ↦
      rw e
        (l, ground arith, (λ i. ne (In-remove_elem xs (suc n) x i).0), remove_last-Members n xs m)
]

-- There are no more of them than threads.
pub Members-length : (n : ℕ) (xs : List ℕ) → Members n xs → length xs ≤ n
Members-length zero [] m = omega arith
Members-length zero (x ∷ xs) m = absurd (omega arith)
Members-length (suc n) xs m = omega (
  arith,
  length-le-remove_elem (suc n) (suc n) xs m,
  Members-length n (remove_elem xs (suc n)) (remove_last-Members n xs m),
)
