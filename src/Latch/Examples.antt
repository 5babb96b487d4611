-- ===== src/Latch/Examples.antt =====
-- include/yamc_latch.hpp: the theorems at a concrete run.
use yamc.Common.{ℕ, ◌+◌, ◌≡◌, refl, [], ◌∷◌, some, get_elem?, total}
use yamc.Threads.{System, Reach, start, later, turn, call}
use yamc.Latch.{Latch, latch, Place, in_wait, passed, arrives_and_waits, act, start_with}
use yamc.Latch.Laws.{arrived, opens_when_all_arrived}

abbrev of : ℕ → Latch
of counter = record { counter = counter }

-- Thread 0 has arrived and waits, thread 1 has counted the rest down and gone through.
abbrev opened : System Latch Place
opened = record { shared = of 0; threads = in_wait 1 ∷ passed 2 ∷ [] }

opened_reached : Reach act (start_with (of 3) 2) opened
unfolding act
opened_reached =
    later (later start (turn 0 (call (arrives_and_waits 1)) refl refl))
      (turn 1 (call (arrives_and_waits 2)) refl refl)

opens_when_all_arrived_example :
    (opened.shared.counter + total arrived opened.threads ≡ 3)
    × ((i a : ℕ) → get_elem? opened.threads i ≡ some (passed a) → total arrived opened.threads ≡ 3)
unfolding latch
opens_when_all_arrived_example = opens_when_all_arrived 3 2 {s0 = of 3} refl opened_reached
