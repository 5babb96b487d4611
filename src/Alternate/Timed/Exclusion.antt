-- ===== src/Alternate/Timed/Exclusion.antt =====
-- include/alternate_mutex.hpp: any number of threads at a `timed_mutex`, taking their turns in any order.
use yamc.Common.{
  ℕ, ◌+◌, ◌≤◌, ◌≡◌, ◌≢◌, refl, some, get_elem?, arith, subst, total, others, total-get_elem?,
  total-set, total-pair, total-replicate_zero, true, false, ap,
}
use yamc.Threads.{
  Action, call, wake, Reach, Reach-inv, Step, turn, failed, refused, moved, Turn, System,
}
use yamc.Alternate.Timed.{
  Mutex, Place, outside, in_lock, in_lock_until, owner, Method, locks, try_locks, unlocks,
  try_locks_until, act, init,
}

abbrev pub owns : Place → ℕ
owns owner = 1
owns _ = 0

-- `state_` counts the owners, of whom there is one at most; `w` are those other than the thread whose turn
-- it is.
abbrev pub Held : Mutex → ℕ → Type 0
Held m w = (m.state ≡ w) × (w ≤ 1)

abbrev pub Keeps : ℕ → Turn Mutex Place → Type 0
Keeps w (moved t p n) = Held t (w + owns p)
Keeps w refused = Unit {0}
Keeps w failed = ⊥

act-Keeps :
    (w : ℕ) (a : Action Method) (m : Mutex) (p : Place) → Held m (w + owns p) → Keeps w (act a m p)
unfolding act
act-Keeps w (call locks) m outside h = ground arith
act-Keeps w (call try_locks) m outside h = ground arith
act-Keeps w (call unlocks) m owner h = ground arith
act-Keeps w (call try_locks_until) m outside h = ground arith
act-Keeps w (wake _) m in_lock h = ground arith
act-Keeps w (wake false) m in_lock_until h = ground arith
act-Keeps w (wake true) m in_lock_until h = ground arith
act-Keeps w _ m p h = tt

record Inv (s : System Mutex Place) : Type 0 where
  held : Held s.shared (total owns s.threads)

turn-Keeps :
    (s : System Mutex Place) (i : ℕ) (a : Action Method) {p : Place}
    → Inv s
    → get_elem? s.threads i ≡ some p
    → Keeps (others owns s.threads i) (act a s.shared p)
turn-Keeps s i a {p} v at =
    act-Keeps (others owns s.threads i) a s.shared p
      (subst (Held s.shared) (total-get_elem? owns s.threads i at) v.held)

Step-Inv : (s t : System Mutex Place) → Step (λ _. act) s t → Inv s → Inv t
Step-Inv s t (turn i a {p} {p'} {m} at e) v = record {
  held =
      rw (total-set owns s.threads i p' at)
        (subst (Keeps (others owns s.threads i)) e (turn-Keeps s i a v at));
}

-- Any number of threads, in any interleaving, with waits that time out, while thread `i` owns the mutex: no
-- other thread owns it, and no turn of any thread fails an assertion.
timed_mutex_exclusion :
    (n : ℕ) {s : System Mutex Place}
    → Reach (λ _. act) (init n) s
    → (i j : ℕ) (a : Action Method) (p : Place) → i ≢ j
    → get_elem? s.threads i ≡ some owner
    → get_elem? s.threads j ≡ some p
    → (p ≢ owner) × (s.shared.state ≡ 1) × (act a s.shared p ≢ failed)
timed_mutex_exclusion n {s} r i j a p ne at_i at_j =
    let v =
      Reach-inv (λ _. act) Inv Step-Inv r
        (record { held = rw (total-replicate_zero owns n outside refl) (refl, omega arith) }) in
    let two = total-pair owns s.threads i j at_i at_j ne in
    (
      (λ e. ground (arith, v.held, two, ap owns e)),
      omega (arith, v.held.0, v.held.1, two),
      λ e. subst (Keeps (others owns s.threads j)) e (turn-Keeps s j a v at_j),
    )
