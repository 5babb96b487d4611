-- ===== src/ScopedLock/Examples.antt =====
-- include/yamc_scoped_lock.hpp: the theorem at a concrete program, over recursive mutexes of which that of
-- number 9 cannot be locked.
use yamc.Common.{
  ℕ, ◌+◌, ◌-◌, ◌≡◌, refl, inl, inr, Bool, false, some, none, List, [], ◌∷◌, ◌==◌, if◌then◌else◌,
  Bool-cases, arith,
}
use yamc.ScopedLock.{times, Mutexes, Lawful, scoped_lock, destroy, invoke_unlock}
use yamc.ScopedLock.Scopes.{Block, skip, throws, scope, run, Balanced, scopes_balance}

abbrev add : List ℕ → (ℕ → ℕ) → ℕ → ℕ
add ks s j = s j + times j ks

-- Locks all of them, unless 9 is one.
abbrev lock_all : List ℕ → (ℕ → ℕ) → Bool × (ℕ → ℕ)
lock_all ks s = (times 9 ks == 0, if times 9 ks == 0 then add ks s else s)

abbrev mutexes : Mutexes (ℕ → ℕ)
mutexes = record {
  lock = λ k s. lock_all (k ∷ []) s;
  std_lock = lock_all;
  unlock = λ k s. if s k == 0 then none else some (λ j. s j - times j (k ∷ []));
  held = λ s. s;
}

lock_all-holds :
    (ks : List ℕ) (s : ℕ → ℕ) (j : ℕ)
    → (lock_all ks s).1 j ≡ s j + (if (lock_all ks s).0 then times j ks else 0)
lock_all-holds ks s j = elim (Bool-cases (times 9 ks == 0)) [
  | inl e ↦ rw e refl
  | inr e ↦ rw e (omega arith)
]

mutexes-Lawful : Lawful mutexes
mutexes-Lawful = record {
  locks = λ k s j. lock_all-holds (k ∷ []) s j;
  std_locks = lock_all-holds;
  unlocks = λ k s pos.
      let found : (s k == 0) ≡ false = ground arith in
      (λ j. s j - times j (k ∷ []), rw found refl, λ j. ground arith);
}

-- Locks 1 and 2, then 3, whose scope an exception leaves.
abbrev program : Block
program = scope (1 ∷ 2 ∷ []) (scope (3 ∷ []) throws skip) skip

program_throws : (t : ℕ → ℕ) × (run mutexes program (λ j. 0) ≡ some (false, t)) × (t 1 ≡ 0)
unfolding run scoped_lock destroy invoke_unlock
program_throws = (_, refl, refl)

scopes_balance_example : Balanced mutexes (λ j. 0) (run mutexes program (λ j. 0))
scopes_balance_example = scopes_balance mutexes mutexes-Lawful program (λ j. 0)
