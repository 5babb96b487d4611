-- ===== src/Spin/Examples.antt =====
-- include/naive_spin_mutex.hpp, include/ttas_spin_mutex.hpp, include/yamc_backoff_spin.hpp: the theorems
-- at concrete runs.
use yamc.Common.{ℕ, ◌≢◌, refl, true, false, [], ◌∷◌, some, get_elem?, arith}
use yamc.Threads.{System, Reach, start, later, turn}
use yamc.Spin.{Place, owner, swapping, loading, locks, goes_on, naive_act, ttas_act, init}
use yamc.Spin.Backoff.{State, exponential, wait}
use yamc.Spin.Exclusion.{ttas_mutual_exclusion}

-- Thread 0 fails once without reason and then owns the mutex, thread 1 spins.
abbrev naive_run : System ℕ (Place State)
naive_run = record {
  shared = 1;
  threads = owner ∷ swapping (record { initcount = 4; counter = 3 }) ∷ [];
}

naive_reached : Reach (naive_act (exponential 4)) (init 2) naive_run
unfolding naive_act exponential wait
naive_reached =
    later (later (later start (turn 0 (locks true) refl refl)) (turn 0 (goes_on false) refl refl))
      (turn 1 (locks false) refl refl)

abbrev ttas_run : System ℕ (Place State)
ttas_run = record {
  shared = 1;
  threads = owner ∷ loading (record { initcount = 4; counter = 3 }) ∷ [];
}

ttas_reached : Reach (ttas_act (exponential 4)) (init 2) ttas_run
unfolding ttas_act exponential wait
ttas_reached =
    later (later (later start (turn 0 (locks false) refl refl)) (turn 0 (goes_on false) refl refl))
      (turn 1 (locks false) refl refl)

ttas_mutual_exclusion_example : get_elem? ttas_run.threads 1 ≢ some owner
ttas_mutual_exclusion_example =
    ttas_mutual_exclusion (exponential 4) 2 ttas_reached 0 1 (omega arith) refl
