-- ===== src/Fair/Recursive/Nesting.antt =====
-- include/fair_mutex.hpp: nested locks of `recursive_mutex`.
use yamc.Common.{
  sym, Bool, ap, ◌∙◌, ℕ, zero, suc, ◌+◌, ◌<◌, ◌≡◌, ◌≢◌, refl, true, Option, some, none, inc, dec,
  size_mod, arith,
}
use yamc.Threads.{Outcome, returned, aborted, silent}
use yamc.Fair.Recursive.{Mutex, tid, lock, try_lock, unlock}

-- Thread `i` has taken the mutex `c` times.
abbrev Owned : ℕ → ℕ → Mutex → Type 0
Owned i c m = (m.owner ≡ tid i) × (m.ncount ≡ c)

-- The state that a section leaves when it returns `true`.
abbrev after : Outcome Mutex Bool → Option Mutex
after (returned m true n) = some m
after _ = none

-- `k` calls of `lock`, or of `unlock`, by thread `i`.
locks : ℕ → ℕ → Mutex → Option Mutex
locks i zero m = some m
locks i (suc k) m = elim (after (lock i m)) [ none ↦ none | some t ↦ locks i k t ]

unlocks : ℕ → ℕ → Mutex → Option Mutex
unlocks i zero m = some m
unlocks i (suc k) m = elim (after (unlock i m)) [ none ↦ none | some t ↦ unlocks i k t ]

abbrev counted : ℕ → Mutex → Mutex
counted c m = record m { ncount = c }

lock_again :
    (i c : ℕ) (m : Mutex)
    → Owned i c m
    → 0 < c
    → suc c < size_mod
    → (lock i m ≡ returned (counted (suc c) m) true silent)
      × (try_lock i m ≡ returned (counted (suc c) m) true silent)
unfolding lock try_lock
lock_again i c m o pos w =
    let more : inc size_mod c ≡ suc c = omega arith in (ground (arith, more), ground (arith, more))

unlock_inner :
    (i c : ℕ) (m : Mutex)
    → Owned i (suc c) m
    → 0 < c
    → suc c < size_mod
    → unlock i m ≡ returned (counted c m) true silent
unfolding unlock
unlock_inner i c m o pos w =
    let less : dec size_mod (suc c) ≡ c = omega arith in ground (arith, less)

locks-suc :
    (i k : ℕ) (m t : Mutex) → lock i m ≡ returned t true silent → locks i (suc k) m ≡ locks i k t
unfolding locks
locks-suc i k m t e = ap (λ o. elim (after o) [ none ↦ none | some u ↦ locks i k u ]) e

unlocks-suc :
    (i k : ℕ) (m t : Mutex)
    → unlock i m ≡ returned t true silent
    → unlocks i (suc k) m ≡ unlocks i k t
unfolding unlocks
unlocks-suc i k m t e = ap (λ o. elim (after o) [ none ↦ none | some u ↦ unlocks i k u ]) e

locks_count :
    (k i c : ℕ) (m : Mutex)
    → Owned i c m
    → 0 < c
    → c + k < size_mod
    → locks i k m ≡ some (counted (c + k) m)
unfolding locks
locks_count zero i c m o pos w = ap (λ n. some (counted n m)) (o.1 ∙ omega arith)
locks_count (suc k) i c m o pos w =
    locks-suc i k m (counted (suc c) m) (lock_again i c m o pos (omega arith)).0
    ∙ locks_count k i (suc c) (counted (suc c) m) (o.0, refl) (omega arith) (omega arith)
    ∙ ap (λ n. some (counted n m)) (omega arith)

unlocks_count :
    (k i c : ℕ) (m : Mutex)
    → m.owner ≡ tid i
    → 0 < c
    → c + k < size_mod
    → unlocks i k (counted (c + k) m) ≡ some (counted c m)
unfolding unlocks
unlocks_count zero i c m o pos w = ap (λ n. some (counted n m)) (omega arith)
unlocks_count (suc k) i c m o pos w =
    unlocks-suc i k (counted (c + suc k) m) (counted (c + k) m) (
      unlock_inner i (c + k) (counted (c + suc k) m) (o, (omega arith)) (omega arith) (omega arith))
    ∙ unlocks_count k i c m o pos (omega arith)

-- A thread that has taken the mutex `c` times and takes it `k` times more, below 2 ^ 64 in all, never
-- waits, and as many calls of `unlock` bring the mutex back to the state before, still owned. A thread
-- that does not own it cannot unlock it.
nested_locks :
    (i c k : ℕ) (m : Mutex)
    → Owned i c m
    → 0 < c
    → c + k < size_mod
    → (locks i k m ≡ some (counted (c + k) m))
      × (unlocks i k (counted (c + k) m) ≡ some m)
      × ((j : ℕ) → j ≢ i → unlock j m ≡ aborted)
unfolding unlock
nested_locks i c k m o pos w = (
  locks_count k i c m o pos w,
  unlocks_count k i c m o.0 pos w ∙ ap (λ n. some (counted n m)) (sym o.1),
  λ j ne. ground arith,
)
