-- ===== src/Validator/Examples.antt =====
-- include/yamc_lock_validator.hpp: the theorems at concrete tables.
use mathlib.Core.WellFounded.{Acc}
use yamc.Common.{inl, inr, ℕ, ◌≡◌, [], none, some, false, arith}
use yamc.Validator.{Table, ctor, locked, enqueue, push_waiter}
use yamc.Validator.WaitsFor.{Acyclic}
use yamc.Validator.Search.{Decided, search-Decided}
use yamc.Validator.Cycles.{Answers, enqueue_decides, ctor-Acyclic, locked-Acyclic}
use yamc.Validator.Stale.{crossed, stale_waiter_diverges}

abbrev no_mutexes : Table
no_mutexes = record { counter = 0; mutexmap = [] }

-- Thread 5 owns mutex 1.
abbrev owned : Table
owned = locked 1 5 (ctor 1 no_mutexes)

owned-Acyclic : Acyclic owned.mutexmap
unfolding ctor
owned-Acyclic =
    locked-Acyclic 1 5 (ctor 1 no_mutexes)
      (ctor-Acyclic 1 no_mutexes (λ t. Acc.intro t (λ w b. absurd b)))
      (λ v. elim v [ inl i ↦ i | inr j ↦ j ])

enqueue_decides_example : (n : ℕ) × Answers 1 7 owned owned-Acyclic n
enqueue_decides_example = enqueue_decides 1 7 owned owned-Acyclic

search-Decided_example : Decided [] 1 7
search-Decided_example = search-Decided [] 1 7 (Acc.intro 7 (λ w b. absurd b))

stale_waiter_diverges_example :
    (enqueue 9 1 5 (crossed 1 2 3 4 5 6) ≡ some (false, push_waiter 1 5 (crossed 1 2 3 4 5 6)))
    × (enqueue 7 3 5 (push_waiter 1 5 (crossed 1 2 3 4 5 6)) ≡ none)
stale_waiter_diverges_example = stale_waiter_diverges 1 2 3 4 5 6 (ground arith) (ground arith) 7
