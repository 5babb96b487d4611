-- ===== src/Semaphore/Examples.antt =====
-- include/yamc_semaphore.hpp: the theorems at a concrete run.
use yamc.Common.{ℕ, ◌+◌, ◌≤◌, ◌≡◌, refl, [], ◌∷◌, total}
use yamc.Threads.{System, Reach, start, later, turn, call}
use yamc.Semaphore.{
  Semaphore, counting_semaphore, Place, outside, in_acquire, acquires, releases, act, start_with,
}
use yamc.Semaphore.Laws.{acquired, released, permits_conserved}

abbrev of : ℕ → Semaphore
of counter = record { max = 5; counter = counter }

-- Thread 0 has taken the one permit and released two; thread 1 waits.
abbrev used : System Semaphore Place
used = record { shared = of 2; threads = outside 1 2 ∷ in_acquire 0 0 ∷ [] }

used_reached : Reach act (start_with (of 1) 2) used
unfolding act
used_reached =
    later
      (later (later start (turn 0 (call acquires) refl refl)) (turn 1 (call acquires) refl refl))
      (turn 0 (call (releases 2)) refl refl)

permits_conserved_example :
    (used.shared.counter + total acquired used.threads ≡ 1 + total released used.threads)
    × (used.shared.counter ≤ 5)
unfolding counting_semaphore
permits_conserved_example = permits_conserved 5 1 2 {s0 = of 1} refl used_reached
