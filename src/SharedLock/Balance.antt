-- ===== src/SharedLock/Balance.antt =====
-- include/yamc_shared_lock.hpp: every mutex is held shared as often as lock objects own it.
use yamc.Common.{
  ℕ, ◌+◌, ◌≡◌, refl, Bool, true, false, Option, some, none, if◌then◌else◌, ◌==◌, total, arith, ◌⊎◌,
  inl, inr, Bool-cases,
}
use yamc.SharedLock.{
  Try, answers, throws, SharedLock, Outcome, give_back, before_move, destroy, try_lock, lock,
  unlock, locking_precondition,
}
use yamc.SharedLock.Store.{Store}

-- 1 for an object that owns mutex `k`, and for one that owns no mutex at all.
abbrev pub owned : ℕ → Option SharedLock → ℕ
owned k none = 0
owned k (some l) = elim l.pm [ none ↦ 0 | some m ↦ if m == k then if l.owns then 1 else 0 else 0 ]

abbrev pub astray : Option SharedLock → ℕ
astray none = 0
astray (some l) = elim l.pm [ none ↦ if l.owns then 1 else 0 | some m ↦ 0 ]

-- `held` counts the objects that own the mutex, and no object owns without a mutex.
abbrev pub Balanced : Store → Type 0
Balanced s = ((k : ℕ) → s.held k ≡ total (owned k) s.slots + s.loose k) × (total astray s.slots ≡ 0)

abbrev pub object : Option ℕ → Bool → SharedLock
object p q = record { pm = p; owns = q }

-- What is held beside what one slot owns, and that slot.
module _ (o : ℕ → ℕ) where
  abbrev pub Slot : Option SharedLock → (ℕ → ℕ) → Type 0
  Slot l h = ((k : ℕ) → h k ≡ o k + owned k l) × (astray l ≡ 0)

  -- What a call that starts at a slot `l` makes of it.
  abbrev pub Ends : Option Outcome → Type 0
  Ends none = ⊥
  Ends (some u) = Slot (some u.lock) u.held

  abbrev pub Empties : Option (ℕ → ℕ) → Type 0
  Empties none = ⊥
  Empties (some h) = (k : ℕ) → h k ≡ o k

  give_back-Empties :
      (m : ℕ) (h : ℕ → ℕ)
      → ((k : ℕ) → h k ≡ o k + (if m == k then 1 else 0))
      → Empties (give_back m h)
  give_back-Empties m h e = elim (Bool-cases (h m == 0)) [
    | inl z ↦ absurd (ground (arith, e m))
    | inr p ↦ rw p (λ k. ground (arith, e m, e k))
  ]

  pub destroy-Empties :
      (p : Option ℕ) (q : Bool) (h : ℕ → ℕ)
      → Slot (some (object p q)) h
      → Empties (destroy (object p q) h)
  unfolding destroy
  destroy-Empties none false h (e, v) = λ k. ground (arith, e k)
  destroy-Empties none true h (e, v) = absurd (ground (arith, v))
  destroy-Empties (some m) false h (e, v) = λ k. ground (arith, e k)
  destroy-Empties (some m) true h (e, v) = give_back-Empties m h e

  pub before_move-Empties :
      (p : Option ℕ) (q : Bool) (h : ℕ → ℕ)
      → Slot (some (object p q)) h
      → Empties (before_move (object p q) h)
  unfolding before_move
  before_move-Empties none false h (e, v) = λ k. ground (arith, e k)
  before_move-Empties none true h (e, v) = absurd (ground (arith, v))
  before_move-Empties (some m) false h (e, v) = λ k. ground (arith, e k)
  before_move-Empties (some m) true h (e, v) = give_back-Empties m h e

  pub try_lock-Ends :
      (c : Try) (p : Option ℕ) (q : Bool) (h : ℕ → ℕ)
      → Slot (some (object p q)) h
      → Ends (try_lock c (object p q) h)
  unfolding try_lock locking_precondition
  try_lock-Ends c none _ h (e, v) = (e, v)
  try_lock-Ends c (some m) true h (e, v) = (e, v)
  try_lock-Ends (answers true) (some m) false h (e, v) = ((λ k. ground (arith, e m, e k)), refl)
  try_lock-Ends (answers false) (some m) false h (e, v) = ((λ k. ground (arith, e k)), refl)
  try_lock-Ends throws (some m) false h (e, v) = (e, v)

  pub lock-Ends :
      (fails : Bool) (p : Option ℕ) (q : Bool) (h : ℕ → ℕ)
      → Slot (some (object p q)) h
      → Ends (lock fails (object p q) h)
  unfolding lock try_lock
  lock-Ends true p q h s = try_lock-Ends throws p q h s
  lock-Ends false p q h s = try_lock-Ends (answers true) p q h s

  pub unlock-Ends :
      (p : Option ℕ) (q : Bool) (h : ℕ → ℕ)
      → Slot (some (object p q)) h
      → (p ≡ none) ⊎ Ends (unlock (object p q) h)
  unfolding unlock
  unlock-Ends none _ h (e, v) = inl refl
  unlock-Ends (some m) false h (e, v) = inr (e, v)
  unlock-Ends (some m) true h (e, v) = inr (elim (Bool-cases (h m == 0)) [
    | inl z ↦ absurd (ground (arith, e m))
    | inr p ↦ rw p ((λ k. ground (arith, e m, e k)), refl)
  ])
