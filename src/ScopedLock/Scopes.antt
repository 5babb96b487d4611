-- ===== src/ScopedLock/Scopes.antt =====
-- include/yamc_scoped_lock.hpp: blocks of a program that open scopes, each with its lock object, and leave
-- them by their end or by an exception.
use yamc.Common.{
  ℕ, ◌+◌, ◌<◌, ◌≤◌, ◌≡◌, refl, ap, ◌∙◌, Bool, true, false, Option, some, none, List, [], ◌∷◌,
  if◌then◌else◌, arith,
}
use yamc.ScopedLock.{times, Mutexes, Lawful, scoped_lock, adopt, invoke_unlock, destroy}

-- The end of a block, an exception, a scope with a lock object of `ms` and what follows it, and one with
-- a lock object that adopts `ms` after a call of `std::lock`.
pub data Block : Type 0 where
  skip throws : Block
  scope : (ms : List ℕ) (body : Block) (rest : Block) → Block
  adopting : (ms : List ℕ) (body : Block) (rest : Block) → Block

module _ {S : Type 0} (M : Mutexes S) where
  -- A scope is entered unless its lock has thrown.
  abbrev enter : (S → Option (Bool × S)) → Bool × S → Option (Bool × S)
  enter go (true, s) = go s
  enter go (false, s) = some (false, s)

  -- What follows a scope runs unless an exception has left it. A destructor that fails ends the program.
  abbrev after : (S → Option (Bool × S)) → Bool → Option S → Option (Bool × S)
  after rest ok none = none
  after rest true (some s) = rest s
  after rest false (some s) = some (false, s)

  abbrev leave : List ℕ → (S → Option (Bool × S)) → Option (Bool × S) → Option (Bool × S)
  leave ms rest none = none
  leave ms rest (some (ok, s)) = after rest ok (destroy M ms s)

  -- `false` is an exception.
  unfoldable pub run : Block → S → Option (Bool × S)
  unfolding scoped_lock adopt destroy
  run skip s = some (true, s)
  run throws s = some (false, s)
  run (scope ms body rest) s =
      enter (λ t. leave ms (λ u. run rest u) (run body t)) (scoped_lock M ms s)
  run (adopting ms body rest) s =
      enter (λ t. leave ms (λ u. run rest u) (run body (adopt M ms t).1)) (M.std_lock ms s)

  abbrev pub Same : S → S → Type 0
  Same s t = (j : ℕ) → M.held t j ≡ M.held s j

  -- A run comes to an end, by itself or by an exception, and holds what it held before.
  abbrev pub Balanced : S → Option (Bool × S) → Type 0
  Balanced s o = (ok : Bool) × (t : S) × (o ≡ some (ok, t)) × Same s t

  module _ (law : Lawful M) where
    scoped_lock-holds :
        (ms : List ℕ) (s : S) (j : ℕ)
        → M.held (scoped_lock M ms s).1 j
          ≡ M.held s j + (if (scoped_lock M ms s).0 then times j ms else 0)
    unfolding scoped_lock
    scoped_lock-holds [] s j = omega arith
    scoped_lock-holds (m ∷ []) s j = law.locks m s j
    scoped_lock-holds (m ∷ k ∷ ms) s j = law.std_locks (m ∷ k ∷ ms) s j

    invoke_unlock-cons :
        (m : ℕ) (ms : List ℕ) (s t : S)
        → M.unlock m s ≡ some t
        → invoke_unlock M (m ∷ ms) s ≡ invoke_unlock M ms t
    unfolding invoke_unlock
    invoke_unlock-cons m ms s t e =
        ap (λ o. elim o [ none ↦ none | some u ↦ invoke_unlock M ms u ]) e

    abbrev Releases : List ℕ → S → Option S → Type 0
    Releases ms s o = (t : S) × (o ≡ some t) × ((j : ℕ) → M.held s j ≡ M.held t j + times j ms)

    held_first :
        (m : ℕ) (ms : List ℕ) (s : S) → ((j : ℕ) → times j (m ∷ ms) ≤ M.held s j) → 0 < M.held s m
    held_first m ms s h = ground (arith, h m)

    -- The mutexes of a list that are all held can be unlocked.
    invoke_unlock-Releases :
        (ms : List ℕ) (s : S)
        → ((j : ℕ) → times j ms ≤ M.held s j)
        → Releases ms s (invoke_unlock M ms s)
    unfolding invoke_unlock
    invoke_unlock-Releases [] s h = (s, refl, λ j. omega arith)
    invoke_unlock-Releases (m ∷ ms) s h =
        let (t, done, less) = law.unlocks m s (held_first m ms s h) in
        let (u, rest, none_left) = invoke_unlock-Releases ms t (λ j. omega (arith, h j, less j)) in
        (u, invoke_unlock-cons m ms s t done ∙ rest, λ j. omega (arith, less j, none_left j))

    destroy-Releases :
        (ms : List ℕ) (s : S) → ((j : ℕ) → times j ms ≤ M.held s j) → Releases ms s (destroy M ms s)
    unfolding destroy
    destroy-Releases [] s h = (s, refl, λ j. omega arith)
    destroy-Releases (m ∷ []) s h = law.unlocks m s (held_first m [] s h)
    destroy-Releases (m ∷ k ∷ ms) s h = invoke_unlock-Releases (m ∷ k ∷ ms) s h

    -- A scope whose lock holds `ms` more than before, and whose body and rest are balanced.
    leave-Balanced :
        (ms : List ℕ) (rest : S → Option (Bool × S)) (s t : S) (o : Option (Bool × S))
        → ((u : S) → Balanced u (rest u))
        → ((j : ℕ) → M.held t j ≡ M.held s j + times j ms)
        → Balanced t o
        → Balanced s (leave ms rest o)
    leave-Balanced ms rest s t o go more (ok, u, e, same) =
        let (v, done, less) = destroy-Releases ms u (λ j. omega (arith, same j, more j)) in
        let kept : Same s v = λ j. omega (arith, same j, more j, less j) in
        let reduced : leave ms rest o ≡ after rest ok (some v) =
          ap (leave ms rest) e ∙ ap (after rest ok) done in
        elim ok as (λ b. leave ms rest o ≡ after rest b (some v) → Balanced s (leave ms rest o)) [
          | true ↦ λ r. let (ok', w, f, same') = go v in (ok', w, r ∙ f, λ j. same' j ∙ kept j)
          | false ↦ λ r. (false, v, r, kept)
        ]
          reduced

    enter-Balanced :
        (ms : List ℕ) (s : S) (go : S → Option (Bool × S)) (a : Bool × S)
        → ((j : ℕ) → M.held a.1 j ≡ M.held s j + (if a.0 then times j ms else 0))
        → ((t : S) → ((j : ℕ) → M.held t j ≡ M.held s j + times j ms) → Balanced s (go t))
        → Balanced s (enter go a)
    enter-Balanced ms s go (true, t) more h = h t more
    enter-Balanced ms s go (false, t) more h = (false, t, refl, λ j. omega (arith, more j))

    -- Any program of nested scopes, over mutexes and a `std::lock` that do as documented, comes to its
    -- end or is left by an exception, no destructor fails, and then the thread holds each mutex as
    -- often as before.
    pub scopes_balance : (b : Block) (s : S) → Balanced s (run b s)
    unfolding run
    scopes_balance skip s = (true, s, refl, λ j. refl)
    scopes_balance throws s = (false, s, refl, λ j. refl)
    scopes_balance (scope ms body rest) s =
        enter-Balanced ms s _ (scoped_lock M ms s) (scoped_lock-holds ms s) (λ t more.
          leave-Balanced ms (λ u. run rest u) s t (run body t) (scopes_balance rest) more
            (scopes_balance body t))
    scopes_balance (adopting ms body rest) s =
        enter-Balanced ms s _ (M.std_lock ms s) (law.std_locks ms s) (λ t more.
          leave-Balanced ms (λ u. run rest u) s t (run body t) (scopes_balance rest) more
            (scopes_balance body t))
