-- ===== src/Common/Lists.antt =====
-- Lists over the native numbers: a table of threads is a list, indexed by the thread's number.
use Prim.Native.Nat.{ℕ, zero, suc, ◌+◌, ◌≤◌, ◌<◌}
use mathlib.Core.Path.{◌≡◌, refl, ap}
use mathlib.Core.Logic.{◌≢◌, ◌⊎◌, inl, inr}
use mathlib.Core.Option.{Option, none, some}
use mathlib.Core.List.{List, [], ◌∷◌, ◌++◌, map}
use native.Mathlib.Omega.{arith}

module _ {ℓ} {A : Type ℓ} where
  abbrev pub length : List A → ℕ
  length [] = 0
  length (x ∷ xs) = suc (length xs)

  abbrev pub get_elem? : List A → ℕ → Option A
  get_elem? [] i = none
  get_elem? (x ∷ xs) zero = some x
  get_elem? (x ∷ xs) (suc i) = get_elem? xs i

  -- A write out of bounds changes nothing.
  abbrev pub set : List A → ℕ → A → List A
  set [] i v = []
  set (x ∷ xs) zero v = v ∷ xs
  set (x ∷ xs) (suc i) v = x ∷ set xs i v

  abbrev pub replicate : ℕ → A → List A
  replicate zero a = []
  replicate (suc n) a = a ∷ replicate n a

  pub length-append : (xs ys : List A) → length (xs ++ ys) ≡ length xs + length ys
  length-append [] ys = omega arith
  length-append (x ∷ xs) ys = omega (arith, length-append xs ys)

  pub length-set : (xs : List A) (i : ℕ) (v : A) → length (set xs i v) ≡ length xs
  length-set [] i v = refl
  length-set (x ∷ xs) zero v = refl
  length-set (x ∷ xs) (suc i) v = omega (arith, length-set xs i v)

  pub length-replicate : (n : ℕ) (a : A) → length (replicate n a) ≡ n
  length-replicate zero a = refl
  length-replicate (suc n) a = omega (arith, length-replicate n a)

  -- The sum of a weight over a list.
  abbrev pub total : (A → ℕ) → List A → ℕ
  total f [] = 0
  total f (x ∷ xs) = f x + total f xs

  -- The weight of all entries but that at an index.
  abbrev pub others : (A → ℕ) → List A → ℕ → ℕ
  others f [] i = 0
  others f (x ∷ xs) zero = total f xs
  others f (x ∷ xs) (suc i) = f x + others f xs i

  pub total-get_elem? :
      (f : A → ℕ) (xs : List A) (i : ℕ) {a : A}
      → get_elem? xs i ≡ some a
      → total f xs ≡ others f xs i + f a
  total-get_elem? f [] i e = cc
  total-get_elem? f (x ∷ xs) zero e = ground arith
  total-get_elem? f (x ∷ xs) (suc i) e = omega (arith, total-get_elem? f xs i e)

  pub total-set :
      (f : A → ℕ) (xs : List A) (i : ℕ) {a : A} (b : A)
      → get_elem? xs i ≡ some a
      → total f (set xs i b) ≡ others f xs i + f b
  total-set f [] i b e = cc
  total-set f (x ∷ xs) zero b e = ground arith
  total-set f (x ∷ xs) (suc i) b e = omega (arith, total-set f xs i b e)

  pub total-replicate_zero : (f : A → ℕ) (n : ℕ) (a : A) → f a ≡ 0 → total f (replicate n a) ≡ 0
  total-replicate_zero f zero a e = refl
  total-replicate_zero f (suc n) a e = omega (arith, total-replicate_zero f n a e)

  pub total-le-length : (f : A → ℕ) → ((a : A) → f a ≤ 1) → (xs : List A) → total f xs ≤ length xs
  total-le-length f h [] = omega arith
  total-le-length f h (x ∷ xs) = omega (arith, h x, total-le-length f h xs)

  pub get_elem?-lt-length : (xs : List A) (i : ℕ) {a : A} → get_elem? xs i ≡ some a → i < length xs
  get_elem?-lt-length [] i e = cc
  get_elem?-lt-length (x ∷ xs) zero e = omega arith
  get_elem?-lt-length (x ∷ xs) (suc i) e = omega (arith, get_elem?-lt-length xs i e)

  -- Two entries at different indices.
  pub total-pair :
      (f : A → ℕ) (xs : List A) (i j : ℕ) {a b : A}
      → get_elem? xs i ≡ some a
      → get_elem? xs j ≡ some b
      → i ≢ j
      → f a + f b ≤ total f xs
  total-pair f [] i j p q ne = cc
  total-pair f (x ∷ xs) zero zero p q ne = absurd (ne refl)
  total-pair f (x ∷ xs) zero (suc j) p q ne = ground (arith, total-get_elem? f xs j q)
  total-pair f (x ∷ xs) (suc i) zero p q ne = ground (arith, total-get_elem? f xs i p)
  total-pair f (x ∷ xs) (suc i) (suc j) p q ne =
      omega (arith, total-pair f xs i j p q (λ e. ne (omega arith)))

  pub others-le-total : (f : A → ℕ) (xs : List A) (i : ℕ) → others f xs i ≤ total f xs
  others-le-total f [] i = omega arith
  others-le-total f (x ∷ xs) zero = omega arith
  others-le-total f (x ∷ xs) (suc i) = omega (arith, others-le-total f xs i)

  pub get_elem?-set_self :
      (xs : List A) (i : ℕ) {a : A} (b : A)
      → get_elem? xs i ≡ some a
      → get_elem? (set xs i b) i ≡ some b
  get_elem?-set_self [] i b e = cc
  get_elem?-set_self (x ∷ xs) zero b e = refl
  get_elem?-set_self (x ∷ xs) (suc i) b e = get_elem?-set_self xs i b e

  pub get_elem?-set_ne :
      (xs : List A) (i j : ℕ) (b : A) → i ≢ j → get_elem? (set xs i b) j ≡ get_elem? xs j
  get_elem?-set_ne [] i j b ne = refl
  get_elem?-set_ne (x ∷ xs) zero zero b ne = absurd (ne refl)
  get_elem?-set_ne (x ∷ xs) zero (suc j) b ne = refl
  get_elem?-set_ne (x ∷ xs) (suc i) zero b ne = refl
  get_elem?-set_ne (x ∷ xs) (suc i) (suc j) b ne = get_elem?-set_ne xs i j b (λ e. ne (omega arith))

  -- An index into a list with one more entry at its end.
  pub get_elem?-snoc :
      (xs : List A) (x : A) (i : ℕ) {a : A}
      → get_elem? (xs ++ x ∷ []) i ≡ some a
      → (get_elem? xs i ≡ some a) ⊎ ((i ≡ length xs) × (a ≡ x))
  get_elem?-snoc [] x zero e = ground arith
  get_elem?-snoc [] x (suc i) e = cc
  get_elem?-snoc (y ∷ xs) x zero e = inl e
  get_elem?-snoc (y ∷ xs) x (suc i) e = ground (arith, get_elem?-snoc xs x i e)

  pub get_elem?-append_left :
      (xs ys : List A) (i : ℕ) {a : A} → get_elem? xs i ≡ some a → get_elem? (xs ++ ys) i ≡ some a
  get_elem?-append_left [] ys i e = cc
  get_elem?-append_left (x ∷ xs) ys zero e = e
  get_elem?-append_left (x ∷ xs) ys (suc i) e = get_elem?-append_left xs ys i e

  pub get_elem?-snoc_last : (xs : List A) (x : A) → get_elem? (xs ++ x ∷ []) (length xs) ≡ some x
  get_elem?-snoc_last [] x = refl
  get_elem?-snoc_last (y ∷ xs) x = get_elem?-snoc_last xs x

  pub get_elem?-replicate :
      (n : ℕ) (x : A) (i : ℕ) {a : A} → get_elem? (replicate n x) i ≡ some a → a ≡ x
  get_elem?-replicate zero x i e = cc
  get_elem?-replicate (suc n) x zero e = cc
  get_elem?-replicate (suc n) x (suc i) e = get_elem?-replicate n x i e

  pub set-get_elem? : (xs : List A) (i : ℕ) {a : A} → get_elem? xs i ≡ some a → set xs i a ≡ xs
  set-get_elem? [] i e = refl
  set-get_elem? (x ∷ xs) zero e = cc
  set-get_elem? (x ∷ xs) (suc i) e = ap (λ ys. x ∷ ys) (set-get_elem? xs i e)

  -- What stands at an index after a write.
  pub get_elem?-set_inv :
      (xs : List A) (i j : ℕ) (b : A) {c : A}
      → get_elem? (set xs i b) j ≡ some c
      → ((i ≡ j) × (c ≡ b)) ⊎ ((i ≢ j) × (get_elem? xs j ≡ some c))
  get_elem?-set_inv [] i j b e = cc
  get_elem?-set_inv (x ∷ xs) zero zero b e = inl (refl, cc)
  get_elem?-set_inv (x ∷ xs) zero (suc j) b e = inr (omega arith, e)
  get_elem?-set_inv (x ∷ xs) (suc i) zero b e = inr (omega arith, e)
  get_elem?-set_inv (x ∷ xs) (suc i) (suc j) b e = ground (arith, get_elem?-set_inv xs i j b e)

module _ {ℓ ℓ'} {A : Type ℓ} {B : Type ℓ'} (f : A → B) where
  pub get_elem?-map :
      (xs : List A) (i : ℕ) {a : A} → get_elem? xs i ≡ some a → get_elem? (map f xs) i ≡ some (f a)
  get_elem?-map [] i e = cc
  get_elem?-map (x ∷ xs) zero e = cc
  get_elem?-map (x ∷ xs) (suc i) e = get_elem?-map xs i e

  pub map-set : (xs : List A) (i : ℕ) (a : A) → map f (set xs i a) ≡ set (map f xs) i (f a)
  map-set [] i a = refl
  map-set (x ∷ xs) zero a = refl
  map-set (x ∷ xs) (suc i) a = ap (λ ys. f x ∷ ys) (map-set xs i a)

  pub map-replicate : (n : ℕ) (a : A) → map f (replicate n a) ≡ replicate n (f a)
  map-replicate zero a = refl
  map-replicate (suc n) a = ap (λ ys. f a ∷ ys) (map-replicate n a)
