-- ===== src/Spin/Exclusion.antt =====
-- include/naive_spin_mutex.hpp, include/ttas_spin_mutex.hpp: any number of spinning threads, in any
-- interleaving, whatever the backoff.
use yamc.Common.{
  refl, total-pair, total-replicate_zero, sym, some, total-set, get_elem?, total-get_elem?, ◌≢◌, ℕ,
  ◌+◌, ◌≡◌, ◌≤◌, total, arith,
}
use yamc.Threads.{Reach-inv, turn, Step, Reach, Notice, System, moved}
use yamc.Spin.{
  init, Turn, BackoffPolicy, Place, outside, owner, swapping, loading, Act, locks, try_locks,
  goes_on, unlocks, naive_act, ttas_act,
}

module _ {B : Type 0} (P : BackoffPolicy B) where
  abbrev pub owns : Place B → ℕ
  owns owner = 1
  owns _ = 0

  -- The integer counts the owners, and is at most 1.
  abbrev pub Counts : System ℕ (Place B) → Type 0
  Counts s = (s.shared ≡ total owns s.threads) × (s.shared ≤ 1)

  naive_act-Counts :
      (i : ℕ) (a : Act) (m m' : ℕ) (p p' : Place B) (n : Notice)
      → naive_act P i a m p ≡ moved m' p' n
      → owns p ≤ m
      → m ≤ 1
      → (m' + owns p ≡ m + owns p') × (m' ≤ 1)
  unfolding naive_act
  naive_act-Counts i (locks sp) m m' outside p' n e o l = ground arith
  naive_act-Counts i (try_locks sp) m m' outside p' n e o l = ground arith
  naive_act-Counts i (goes_on sp) m m' (swapping b) p' n e o l = ground arith
  naive_act-Counts i unlocks m m' owner p' n e o l = ground arith
  naive_act-Counts i a m m' p p' n e o l = ground arith

  ttas_act-Counts :
      (i : ℕ) (a : Act) (m m' : ℕ) (p p' : Place B) (n : Notice)
      → ttas_act P i a m p ≡ moved m' p' n
      → owns p ≤ m
      → m ≤ 1
      → (m' + owns p ≡ m + owns p') × (m' ≤ 1)
  unfolding ttas_act
  ttas_act-Counts i (locks sp) m m' outside p' n e o l = ground arith
  ttas_act-Counts i (try_locks sp) m m' outside p' n e o l = ground arith
  ttas_act-Counts i (goes_on sp) m m' (swapping b) p' n e o l = ground arith
  ttas_act-Counts i (goes_on sp) m m' (loading b) p' n e o l = ground arith
  ttas_act-Counts i unlocks m m' owner p' n e o l = ground arith
  ttas_act-Counts i a m m' p p' n e o l = ground arith

  module _ (act : ℕ → Act → ℕ → Place B → Turn ℕ (Place B))
      (act-Counts : (i : ℕ) (a : Act) (m m' : ℕ) (p p' : Place B) (n : Notice)
        → act i a m p ≡ moved m' p' n
        → owns p ≤ m
        → m ≤ 1
        → (m' + owns p ≡ m + owns p') × (m' ≤ 1)) where
    Step-Counts : (s t : System ℕ (Place B)) → Step act s t → Counts s → Counts t
    Step-Counts s t (turn i a {p} {p'} {m} {n} at e) v =
        let r =
          act-Counts i a s.shared m p p' n e (omega (arith, v, total-get_elem? owns s.threads i at))
            v.1 in
        (
          omega
              (arith, r, v, total-get_elem? owns s.threads i at, total-set owns s.threads i p' at),
          r.1,
        )

    one_owner :
        (n : ℕ) {s : System ℕ (Place B)}
        → Reach act (init n) s
        → (i j : ℕ) → i ≢ j
        → get_elem? s.threads i ≡ some owner
        → get_elem? s.threads j ≢ some owner
    one_owner n {s} r i j ne at_i at_j =
        let v =
          Reach-inv act Counts Step-Counts r
            (sym (total-replicate_zero owns n outside refl), omega arith) in
        omega (arith, v, total-pair owns s.threads i j at_i at_j ne)

  -- `spin` and `spin_weak`, any number of threads in any interleaving, with any backoff and any spurious
  -- failures: two threads never own the mutex together.
  naive_mutual_exclusion :
      (n : ℕ) {s : System ℕ (Place B)}
      → Reach (naive_act P) (init n) s
      → (i j : ℕ) → i ≢ j
      → get_elem? s.threads i ≡ some owner
      → get_elem? s.threads j ≢ some owner
  naive_mutual_exclusion = one_owner (naive_act P) naive_act-Counts

  -- The same for `spin_ttas`.
  pub ttas_mutual_exclusion :
      (n : ℕ) {s : System ℕ (Place B)}
      → Reach (ttas_act P) (init n) s
      → (i j : ℕ) → i ≢ j
      → get_elem? s.threads i ≡ some owner
      → get_elem? s.threads j ≢ some owner
  ttas_mutual_exclusion = one_owner (ttas_act P) ttas_act-Counts
