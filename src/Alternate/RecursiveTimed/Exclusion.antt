-- ===== src/Alternate/RecursiveTimed/Exclusion.antt =====
-- include/alternate_mutex.hpp: any number of threads at a `recursive_timed_mutex`, taking their turns in any
-- order.
use yamc.Common.{
  ℕ, ◌+◌, ◌-◌, ◌<◌, ◌≡◌, ◌≢◌, ◌⊎◌, refl, inl, inr, Bool, true, false, some, get_elem?, arith, inc,
  dec, size_mod, ◌==◌, if◌then◌else◌, Bool-cases, ltb, ◌&&◌,
}
use yamc.Threads.{
  Action, call, wake, Reach, failed, settle, Outcome, returned, silent, System, refused,
}
use yamc.Threads.Places.{Kept, TurnKept, Inv, replicate-Inv, Reach-Inv, never_fails}
use yamc.Alternate.RecursiveTimed.{
  Mutex, no_thread, take, taken, given, count_up, tid, lock, try_lock, unlock, lock_loop,
  do_try_lockwait, Place, outside, in_lock, in_lock_until, holds, Method, locks, try_locks, unlocks,
  try_locks_until, act, init,
}

-- The count is 0 exactly while nobody owns the mutex.
abbrev pub Sound : Mutex → Type 0
Sound m = ((m.owner ≡ no_thread) × (m.ncount ≡ 0)) ⊎ ((m.owner ≢ no_thread) × (0 < m.ncount))

-- A thread holds the mutex as often as it is counted, and owns it only then.
abbrev pub Fits : ℕ → Place → Mutex → Type 0
Fits i (holds c) m = (m.owner ≡ tid i) × (m.ncount ≡ c) × (0 < c) × (c < size_mod)
Fits i outside m = m.owner ≢ tid i
Fits i in_lock m = m.owner ≢ tid i
Fits i in_lock_until m = m.owner ≢ tid i

others :
    (i : ℕ) (m m' : Mutex)
    → (m.owner ≡ no_thread) ⊎ (m.owner ≡ tid i)
    → (m'.owner ≡ no_thread) ⊎ (m'.owner ≡ tid i)
    → (j : ℕ) (q : Place) → j ≢ i
    → Fits j q m
    → Fits j q m'
others i m m' a b j (holds c) ne f = ground arith
others i m m' a b j outside ne f = ground arith
others i m m' a b j in_lock ne f = ground arith
others i m m' a b j in_lock_until ne f = ground arith

kept :
    (i : ℕ) (m m' : Mutex) (p : Place)
    → (m.owner ≡ no_thread) ⊎ (m.owner ≡ tid i)
    → (m'.owner ≡ no_thread) ⊎ (m'.owner ≡ tid i)
    → Sound m'
    → Fits i p m'
    → Kept Sound Fits i m m' p
kept i m m' p a b v f = (v, f, λ j q. others i m m' a b j q)

still : (i : ℕ) (m : Mutex) (p : Place) → Sound m → Fits i p m → Kept Sound Fits i m m p
still i m p v f = (v, f, λ j q ne g. g)

module _ (i : ℕ) (m : Mutex) (v : Sound m) where
  -- A thread that does not hold the mutex.
  module _ (w : Place) (out : m.owner ≢ tid i) where
    take-TurnKept : m.ncount ≡ 0 → TurnKept Sound Fits i m (settle (taken 0) w (take i m))
    unfolding take
    take-TurnKept e =
        let free : (m.owner == no_thread) ≡ true = ground arith in
        rw (free, take)
          (kept i m (record { ncount = 1; owner = tid i }) (holds 1) (inl (ground arith)) (inr refl)
            (inr (omega arith, omega arith)) (refl, refl, omega arith, omega arith))

    loop-TurnKept : Fits i w m → TurnKept Sound Fits i m (settle (taken 0) w (lock_loop i m))
    unfolding lock_loop
    loop-TurnKept f = elim (Bool-cases (m.ncount == 0)) [
      | inl e ↦ rw (e, lock_loop) (take-TurnKept (ground arith))
      | inr e ↦ rw (e, lock_loop) (still i m w v f)
    ]

    tried-TurnKept :
        TurnKept Sound Fits i m
          (settle (taken 0) w (if m.ncount == 0 then take i m else returned m false silent))
    tried-TurnKept = elim (Bool-cases (m.ncount == 0)) [
      | inl e ↦ rw e (take-TurnKept (ground arith))
      | inr e ↦ rw e (still i m outside v out)
    ]

  not_mine : m.owner ≢ tid i → (m.owner == tid i) ≡ false
  not_mine out = ground arith

  -- A thread that holds it and takes it once more.
  module _ (c : ℕ) (w : Place) (f : Fits i (holds c) m) (below : c + 1 < size_mod) where
    again-TurnKept :
        (o : Outcome Mutex Bool)
        → TurnKept Sound Fits i m (settle (taken c) w (if m.owner == tid i then count_up m else o))
    again-TurnKept o =
        let mine : (m.owner == tid i) ≡ true = ground arith in
        let more : inc size_mod m.ncount ≡ c + 1 = omega arith in
        rw (mine, more)
          (kept i m (record m { ncount = c + 1 }) (holds (c + 1)) (inr f.0) (inr f.0)
            (inr (omega arith, omega arith)) (f.0, refl, omega arith, below))

  unlock-TurnKept :
      (c : ℕ) → Fits i (holds c) m → TurnKept Sound Fits i m (settle (given c) outside (unlock i m))
  unfolding unlock
  unlock-TurnKept c f =
      let mine : (ltb 0 m.ncount && m.owner == tid i) ≡ true = ground arith in
      let less : dec size_mod m.ncount ≡ c - 1 = omega arith in
      elim (Bool-cases (c == 1)) [
        | inl e ↦
            let none_left : (c - 1 == 0) ≡ true = ground arith in
            rw (mine, unlock, less, none_left, e)
              (kept i m (record { ncount = c - 1; owner = no_thread }) outside (inr f.0) (inl refl)
                (inl (refl, ground arith)) (omega arith))
        | inr e ↦
            let some_left : (c - 1 == 0) ≡ false = ground arith in
            rw (mine, unlock, less, some_left, e)
              (kept i m (record m { ncount = c - 1 }) (holds (c - 1)) (inr f.0) (inr f.0)
                (inr (omega arith, ground arith)) (f.0, refl, ground arith, omega arith))
      ]

  count-TurnKept :
      (c : ℕ) (w : Place) (o : Outcome Mutex Bool)
      → Fits i (holds c) m
      → TurnKept Sound Fits i m (
          if ltb (c + 1) size_mod
          then settle (taken c) w (if m.owner == tid i then count_up m else o)
          else refused)
  count-TurnKept c w o f = elim (Bool-cases (ltb (c + 1) size_mod)) [
    | inl e ↦ rw e (again-TurnKept c w f (ground arith) o)
    | inr e ↦ rw e tt
  ]

act-TurnKept :
    (i : ℕ) (a : Action Method) (m : Mutex) (p : Place)
    → Sound m
    → Fits i p m
    → TurnKept Sound Fits i m (act i a m p)
unfolding act
act-TurnKept i (call locks) m outside v f =
    rw (not_mine i m v f, lock) (loop-TurnKept i m v in_lock f f)
act-TurnKept i (call try_locks) m outside v f =
    rw (not_mine i m v f, try_lock) (tried-TurnKept i m v outside f)
act-TurnKept i (call try_locks_until) m outside v f =
    rw (not_mine i m v f, do_try_lockwait) (loop-TurnKept i m v in_lock_until f f)
act-TurnKept i (call locks) m (holds c) v f = count-TurnKept i m v c in_lock (lock_loop i m) f
act-TurnKept i (call try_locks) m (holds c) v f = count-TurnKept i m v c outside _ f
act-TurnKept i (call try_locks_until) m (holds c) v f =
    count-TurnKept i m v c in_lock_until (lock_loop i m) f
act-TurnKept i (call unlocks) m (holds c) v f = unlock-TurnKept i m v c f
act-TurnKept i (wake _) m in_lock v f = loop-TurnKept i m v in_lock f f
act-TurnKept i (wake false) m in_lock_until v f = loop-TurnKept i m v in_lock_until f f
act-TurnKept i (wake true) m in_lock_until v f = tried-TurnKept i m v outside f
act-TurnKept i _ m p v f = tt

alone :
    (i j c : ℕ) (m : Mutex) (p : Place)
    → Fits i (holds c) m
    → Fits j p m
    → (j ≡ i) ⊎ ((d : ℕ) → p ≢ holds d)
alone i j c m (holds d) f g = inl (ground arith)
alone i j c m outside f g = inr (λ d. ground arith)
alone i j c m in_lock f g = inr (λ d. ground arith)
alone i j c m in_lock_until f g = inr (λ d. ground arith)

Reach-Sound : (n : ℕ) {s : System Mutex Place} → Reach act (init n) s → Inv Sound Fits s
Reach-Sound n r = Reach-Inv Sound Fits act act-TurnKept r (
    replicate-Inv Sound Fits n (record { ncount = 0; owner = no_thread }) outside (inl (refl, refl))
      (λ i. omega arith))

-- Any number of threads, in any interleaving, with waits that time out, while thread `i` holds the mutex: it
-- owns it and is counted as often as it has taken it, no other thread holds it, and no turn of any thread
-- fails an assertion.
pub recursive_timed_exclusion :
    (n : ℕ) {s : System Mutex Place}
    → Reach act (init n) s
    → (i c j : ℕ) (a : Action Method) (p : Place) → get_elem? s.threads i ≡ some (holds c)
    → get_elem? s.threads j ≡ some p
    → (s.shared.owner ≡ tid i)
      × (s.shared.ncount ≡ c)
      × ((j ≡ i) ⊎ ((d : ℕ) → p ≢ holds d))
      × (act j a s.shared p ≢ failed)
recursive_timed_exclusion n {s} r i c j a p at_i at_j =
    let v = Reach-Sound n r in
    let f = v.fits i (holds c) at_i in
    (
      f.0,
      f.1,
      alone i j c s.shared p f (v.fits j p at_j),
      never_fails Sound Fits act act-TurnKept s j a p v at_j,
    )
