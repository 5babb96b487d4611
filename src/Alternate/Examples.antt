-- ===== src/Alternate/Examples.antt =====
-- include/alternate_mutex.hpp: the theorems at concrete runs of two threads.
use yamc.Common.{◌≡◌, ◌≢◌, ◌⊎◌, ℕ, refl, some, false, get_elem?}
use yamc.Threads.{System, Reach, start, later, turn, call, failed}
use yamc.Alternate.Recursive
use yamc.Alternate.Recursive.Exclusion.{inside, CountFits, recursive_exclusion}
use yamc.Alternate.Timed
use yamc.Alternate.RecursiveTimed
use yamc.Alternate.RecursiveTimed.Exclusion.{recursive_timed_exclusion}

-- Thread 0 takes the mutex and thread 1 waits for `mtx_`.
taken_by_0 :
    (s : System Recursive.Mutex Recursive.Place) × Reach Recursive.act (Recursive.init 2) s
    × (get_elem? s.threads 0 ≡ some (Recursive.holds 1))
    × (get_elem? s.threads 1 ≡ some Recursive.waits)
unfolding Recursive.act
taken_by_0 = (
  _,
  later
      (later
        (later
          (later
            (later
              (later (later start (turn 0 Recursive.begins_lock refl refl))
                (turn 0 Recursive.goes_on refl refl))
              (turn 1 Recursive.begins_lock refl refl))
            (turn 0 Recursive.goes_on refl refl))
          (turn 1 Recursive.goes_on refl refl))
        (turn 0 Recursive.goes_on refl refl))
      (turn 0 Recursive.goes_on refl refl),
  refl,
  refl,
)

recursive_exclusion_example :
    ((◌≡◌ {A = ℕ} 1 0) ⊎ (inside Recursive.waits ≡ false))
    × CountFits (Recursive.holds 1) taken_by_0.0.shared.ncount
    × (Recursive.act 1 Recursive.goes_on taken_by_0.0.shared Recursive.waits ≢ failed)
recursive_exclusion_example =
    recursive_exclusion 2 taken_by_0.1 0 1 Recursive.goes_on (Recursive.holds 1) Recursive.waits
      taken_by_0.2 taken_by_0.3 refl

owned_by_0 :
    (s : System Timed.Mutex Timed.Place) × Reach (λ _. Timed.act) (Timed.init 2) s
    × (get_elem? s.threads 0 ≡ some Timed.owner)
    × (get_elem? s.threads 1 ≡ some Timed.in_lock_until)
unfolding Timed.act
owned_by_0 = (
  _,
  later (later start (turn 0 (call Timed.try_locks) refl refl))
      (turn 1 (call Timed.try_locks_until) refl refl),
  refl,
  refl,
)

-- Thread 0 takes it twice and thread 1 waits for it.
twice_by_0 :
    (s : System RecursiveTimed.Mutex RecursiveTimed.Place) × Reach RecursiveTimed.act
      (RecursiveTimed.init 2)
      s
    × (get_elem? s.threads 0 ≡ some (RecursiveTimed.holds 2))
    × (get_elem? s.threads 1 ≡ some RecursiveTimed.in_lock)
unfolding RecursiveTimed.act
twice_by_0 = (
  _,
  later
      (later (later start (turn 0 (call RecursiveTimed.locks) refl refl))
        (turn 1 (call RecursiveTimed.locks) refl refl))
      (turn 0 (call RecursiveTimed.try_locks) refl refl),
  refl,
  refl,
)

recursive_timed_exclusion_example :
    (twice_by_0.0.shared.owner ≡ RecursiveTimed.tid 0)
    × (twice_by_0.0.shared.ncount ≡ 2)
    × ((◌≡◌ {A = ℕ} 1 0) ⊎ ((d : ℕ) → RecursiveTimed.in_lock ≢ RecursiveTimed.holds d))
    × (RecursiveTimed.act 1 (call RecursiveTimed.locks) twice_by_0.0.shared RecursiveTimed.in_lock
        ≢ failed)
recursive_timed_exclusion_example =
    recursive_timed_exclusion 2 twice_by_0.1 0 2 1 (call RecursiveTimed.locks)
      RecursiveTimed.in_lock twice_by_0.2 twice_by_0.3
