-- ===== src/Barrier/Examples.antt =====
-- include/yamc_barrier.hpp: the theorems at concrete barriers, which count their completions.
use yamc.Common.{ℕ, suc, ◌≡◌, refl, some, arith}
use yamc.Threads.{returned, waiting, silent, notify_all}
use yamc.Barrier.{Barrier, arrive, arrive_and_drop}
use yamc.Barrier.Laws.{arrivals, after_arrivals, phases_count_arrivals, drop_is_lost}

abbrev of : ℕ → ℕ → Barrier ℕ
of counter phase = record { init_count = 3; counter = counter; phase = phase; completion = 0 }

phases_count_arrivals_example : arrivals suc 7 (of 3 0) ≡ some (after_arrivals suc (of 3 0) 7)
phases_count_arrivals_example =
    phases_count_arrivals suc (of 3 0) 7 (omega arith) refl (omega arith)

seven_arrivals :
    arrivals suc 7 (of 3 0)
    ≡ some (record { init_count = 3; counter = 2; phase = 2; completion = 2 })
unfolding arrivals arrive
seven_arrivals = refl

drop_is_lost_example :
    (t u : Barrier ℕ) × (arrive_and_drop suc (of 3 0) ≡ waiting t silent)
    × (arrive suc 2 t ≡ returned u 0 notify_all)
    × (u.init_count ≡ 3)
    × (u.counter ≡ 3)
drop_is_lost_example = drop_is_lost suc (of 3 0) (omega arith)
