-- ===== src/SharedLock/Examples.antt =====
-- include/yamc_shared_lock.hpp: the theorems at concrete programs.
use yamc.Common.{ℕ, ◌≡◌, refl, [], ◌∷◌, some, none, true, List, arith, ◌⊎◌, get_elem?}
use yamc.SharedLock.{SharedLock}
use yamc.SharedLock.Store.{
  Store, Command, makes_locked, move_makes, move_assigns, makes_tried, unlocks, destroys, run,
  run_all, before, Result,
}
use yamc.SharedLock.Balance.{Balanced, owned}
use yamc.SharedLock.Commands.{holds_balance, destroyed_locks_release}

abbrev unheld : ℕ → ℕ
unheld k = 0

-- Two locks, of mutexes 7 and 8; the second is moved onto the first, which gives mutex 7 back.
abbrev commands : List Command
commands =
    makes_locked 0 7
    ∷ makes_tried 1 8 true
    ∷ move_assigns 0 1
    ∷ unlocks 0
    ∷ destroys 1
    ∷ destroys 0
    ∷ []

commands_run : (t : Store) × (run_all commands (before 2 unheld) ≡ Result.moved t)
unfolding run_all
commands_run = (_, refl)

abbrev one_owner : Store
one_owner = record {
  slots = some (record { pm = some 7; owns = true }) ∷ none ∷ [];
  held = λ k. owned k (some (record { pm = some 7; owns = true }));
  loose = unheld;
}

one_owner-Balanced : Balanced one_owner
one_owner-Balanced = ((λ k. ground arith), refl)

holds_balance_example :
    (run (move_makes 1 0) one_owner ≡ Result.refused)
    ⊎ ((t : Store) × (run (move_makes 1 0) one_owner ≡ Result.moved t) × Balanced t)
    ⊎ ((run (move_makes 1 0) one_owner ≡ Result.failed)
        × ((i : ℕ) × (l : SharedLock) × (move_makes 1 0 ≡ unlocks i)
            × (get_elem? one_owner.slots i ≡ some (some l))
            × (l.pm ≡ none)))
holds_balance_example = holds_balance (move_makes 1 0) one_owner one_owner-Balanced

destroyed_locks_release_example : commands_run.0.held 7 ≡ commands_run.0.loose 7
unfolding commands_run run_all
destroyed_locks_release_example = destroyed_locks_release commands 2 2 unheld commands_run.1 refl 7
