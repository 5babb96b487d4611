-- ===== src/Alternate/Recursive/Exclusion.antt =====
-- include/alternate_mutex.hpp: any number of threads at a `recursive_mutex`, access by access.
use yamc.Common.{
  ℕ, ◌+◌, ◌-◌, ◌<◌, ◌≡◌, ◌≢◌, ◌⊎◌, refl, inl, inr, Bool, true, false, some, get_elem?, arith, inc,
  dec, size_mod, ◌==◌, if◌then◌else◌, Bool-cases, ltb, ◌&&◌,
}
use yamc.Threads.{Reach, failed, System, refused}
use yamc.Threads.Places.{Kept, TurnKept, replicate-Inv, Reach-Inv, never_fails}
use yamc.Alternate.Recursive.{
  Mutex, no_thread, tid, Place, outside, loads, try_loads, waits, tries, stores, counts, adds,
  holds, subtracts, clears, unlocks, Act, begins_lock, begins_try_lock, begins_unlock, goes_on,
  fails_spuriously, loaded, mtx_lock, mtx_try_lock, unlock_entry, count_down, act, init,
}

-- Only the holder of `mtx_` is named in `owner_`.
abbrev pub Sound : Mutex → Type 0
Sound m = (m.owner ≡ no_thread) ⊎ (m.owner ≡ m.mtx)

-- A thread that is not the holder of `mtx_`.
abbrev pub Apart : ℕ → Mutex → Type 0
Apart i m = (m.mtx ≢ tid i) × (m.owner ≢ tid i)

abbrev pub Counted : ℕ → ℕ → Mutex → Type 0
Counted i c m = (m.mtx ≡ tid i) × (m.owner ≡ tid i) × (m.ncount ≡ c) × (0 < c) × (c < size_mod)

abbrev pub Fits : ℕ → Place → Mutex → Type 0
Fits i outside m = Apart i m
Fits i loads m = Apart i m
Fits i try_loads m = Apart i m
Fits i waits m = Apart i m
Fits i tries m = Apart i m
Fits i stores m = (m.mtx ≡ tid i) × (m.owner ≡ no_thread)
Fits i counts m = (m.mtx ≡ tid i) × (m.owner ≡ tid i)
Fits i (adds c) m = Counted i c m × (c + 1 < size_mod)
Fits i (holds c) m = Counted i c m
Fits i (subtracts c) m = Counted i c m
Fits i clears m = (m.mtx ≡ tid i) × (m.owner ≡ tid i)
Fits i unlocks m = (m.mtx ≡ tid i) × (m.owner ≡ no_thread)

-- What a thread may change: nothing of another holder's, and it takes `mtx_` for itself alone.
abbrev Mine : ℕ → Mutex → Type 0
Mine i m = ((m.mtx ≡ no_thread) ⊎ (m.mtx ≡ tid i)) × ((m.owner ≡ no_thread) ⊎ (m.owner ≡ tid i))

others :
    (i : ℕ) (m m' : Mutex)
    → Mine i m
    → Mine i m'
    → (j : ℕ) (q : Place) → j ≢ i
    → Fits j q m
    → Fits j q m'
others i m m' a b j outside ne f = ground arith
others i m m' a b j loads ne f = ground arith
others i m m' a b j try_loads ne f = ground arith
others i m m' a b j waits ne f = ground arith
others i m m' a b j tries ne f = ground arith
others i m m' a b j stores ne f = ground arith
others i m m' a b j counts ne f = ground arith
others i m m' a b j (adds c) ne f = ground arith
others i m m' a b j (holds c) ne f = ground arith
others i m m' a b j (subtracts c) ne f = ground arith
others i m m' a b j clears ne f = ground arith
others i m m' a b j unlocks ne f = ground arith

kept :
    (i : ℕ) (m m' : Mutex) (p : Place)
    → Mine i m
    → Mine i m'
    → Sound m'
    → Fits i p m'
    → Kept Sound Fits i m m' p
kept i m m' p a b v f = (v, f, λ j q. others i m m' a b j q)

still : (i : ℕ) (m : Mutex) (p : Place) → Sound m → Fits i p m → Kept Sound Fits i m m p
still i m p v f = (v, f, λ j q ne g. g)

module _ (i : ℕ) (m : Mutex) (v : Sound m) where
  -- A thread that does not hold the mutex never reads its own number in `owner_`.
  load_other : (p : Place) → Apart i m → Fits i p m → TurnKept Sound Fits i m (loaded i p 0 m)
  load_other p a f =
      let other : (m.owner == tid i) ≡ false = ground arith in rw other (still i m p v f)

  -- A thread that holds it always does.
  load_own :
      (p : Place) (c : ℕ)
      → Counted i c m
      → TurnKept Sound Fits i m (if ltb (c + 1) size_mod then loaded i p c m else refused)
  load_own p c f = elim (Bool-cases (ltb (c + 1) size_mod)) [
    | inl e ↦
        let own : (m.owner == tid i) ≡ true = ground arith in
        rw (e, own) (still i m (adds c) v (f, ground arith))
    | inr e ↦ rw e tt
  ]

  mtx_lock-TurnKept : Apart i m → TurnKept Sound Fits i m (mtx_lock i m)
  mtx_lock-TurnKept f = elim (Bool-cases (m.mtx == no_thread)) [
    | inl e ↦ rw e (
        kept i m (record m { mtx = tid i }) stores (ground arith) (ground arith)
          (inl (ground arith)) (refl, ground arith))
    | inr e ↦ rw e tt
  ]

  mtx_try_lock-TurnKept : Apart i m → TurnKept Sound Fits i m (mtx_try_lock i m)
  mtx_try_lock-TurnKept f = elim (Bool-cases (m.mtx == no_thread)) [
    | inl e ↦ rw e (
        kept i m (record m { mtx = tid i }) stores (ground arith) (ground arith)
          (inl (ground arith)) (refl, ground arith))
    | inr e ↦ rw e (still i m outside v f)
  ]

  unlock_entry-TurnKept : (c : ℕ) → Counted i c m → TurnKept Sound Fits i m (unlock_entry i c m)
  unlock_entry-TurnKept c f =
      let own : (ltb 0 m.ncount && m.owner == tid i) ≡ true = ground arith in
      rw own (still i m (subtracts c) v f)

  count_down-TurnKept : (c : ℕ) → Counted i c m → TurnKept Sound Fits i m (count_down c m)
  count_down-TurnKept c f =
      let less : dec size_mod m.ncount ≡ c - 1 = omega arith in
      elim (Bool-cases (c - 1 == 0)) [
        | inl e ↦
            rw (less, e)
              (kept i m (record m { ncount = c - 1 }) clears (ground arith) (ground arith)
                (ground arith) (f.0, f.1))
        | inr e ↦
            rw (less, e)
              (kept i m (record m { ncount = c - 1 }) (holds (c - 1)) (ground arith) (ground arith)
                (ground arith) (f.0, f.1, refl, ground arith, omega arith))
      ]

act-TurnKept :
    (i : ℕ) (a : Act) (m : Mutex) (p : Place)
    → Sound m
    → Fits i p m
    → TurnKept Sound Fits i m (act i a m p)
unfolding act
act-TurnKept i begins_lock m outside v f = still i m loads v f
act-TurnKept i begins_try_lock m outside v f = still i m try_loads v f
act-TurnKept i begins_lock m (holds c) v f = load_own i m v waits c f
act-TurnKept i begins_try_lock m (holds c) v f = load_own i m v tries c f
act-TurnKept i begins_unlock m (holds c) v f = unlock_entry-TurnKept i m v c f
act-TurnKept i goes_on m loads v f = load_other i m v waits f f
act-TurnKept i goes_on m try_loads v f = load_other i m v tries f f
act-TurnKept i goes_on m waits v f = mtx_lock-TurnKept i m v f
act-TurnKept i goes_on m tries v f = mtx_try_lock-TurnKept i m v f
act-TurnKept i fails_spuriously m tries v f = still i m outside v f
act-TurnKept i goes_on m stores v f =
    kept i m (record m { owner = tid i }) counts (ground arith) (ground arith) (inr (ground arith))
      (f.0, refl)
act-TurnKept i goes_on m counts v f =
    kept i m (record m { ncount = 1 }) (holds 1) (ground arith) (ground arith) (ground arith)
      (f.0, f.1, refl, omega arith, omega arith)
act-TurnKept i goes_on m (adds c) v f =
    let more : inc size_mod m.ncount ≡ c + 1 = omega arith in
    rw more (
      kept i m (record m { ncount = c + 1 }) (holds (c + 1)) (ground arith) (ground arith)
        (ground arith) (f.0.0, f.0.1, refl, omega arith, f.1))
act-TurnKept i goes_on m (subtracts c) v f = count_down-TurnKept i m v c f
act-TurnKept i goes_on m clears v f =
    kept i m (record m { owner = no_thread }) unlocks (ground arith) (ground arith) (inl refl)
      (f.0, refl)
act-TurnKept i goes_on m unlocks v f =
    kept i m (record m { mtx = no_thread }) outside (ground arith) (ground arith) (inl f.1)
      (omega arith, omega arith)
act-TurnKept i _ m p v f = tt

-- A place in which `ncount_` or `owner_` is written, or the mutex is held.
abbrev pub inside : Place → Bool
inside outside = false
inside loads = false
inside try_loads = false
inside waits = false
inside tries = false
inside _ = true

-- A thread that holds the mutex is counted as often as it has taken it.
abbrev pub CountFits : Place → ℕ → Type 0
CountFits (holds c) n = n ≡ c
CountFits _ n = Unit {0}

inside-mtx : (i : ℕ) (m : Mutex) (p : Place) → Fits i p m → inside p ≡ true → m.mtx ≡ tid i
inside-mtx i m (adds c) f e = f.0.0
inside-mtx i m (holds c) f e = f.0
inside-mtx i m _ f e = ground arith

Fits-CountFits : (i : ℕ) (m : Mutex) (p : Place) → Fits i p m → CountFits p m.ncount
Fits-CountFits i m (holds c) f = f.2
Fits-CountFits i m _ f = tt

alone :
    (i j : ℕ) (m : Mutex) (p q : Place)
    → Fits i p m
    → Fits j q m
    → inside p ≡ true
    → (j ≡ i) ⊎ (inside q ≡ false)
alone i j m p q f g e = elim (Bool-cases (inside q)) [
  | inl e' ↦ inl (omega (arith, inside-mtx i m p f e, inside-mtx j m q g e'))
  | inr e' ↦ inr e'
]

-- Any number of threads, in any interleaving of their accesses to `owner_`, `ncount_` and `mtx_`, while
-- thread `i` stands between its taking and its giving up of `mtx_`: no other thread does, the count is
-- that of its calls while it holds the mutex, and no turn of any thread fails an assertion.
pub recursive_exclusion :
    (n : ℕ) {s : System Mutex Place}
    → Reach act (init n) s
    → (i j : ℕ) (a : Act) (p q : Place) → get_elem? s.threads i ≡ some p
    → get_elem? s.threads j ≡ some q
    → inside p ≡ true
    → ((j ≡ i) ⊎ (inside q ≡ false)) × CountFits p s.shared.ncount × (act j a s.shared q ≢ failed)
recursive_exclusion n {s} r i j a p q at_i at_j e =
    let v = Reach-Inv Sound Fits act act-TurnKept r (
      replicate-Inv Sound Fits n (record { ncount = 0; owner = no_thread; mtx = no_thread }) outside
        (inl refl) (λ k. (omega arith, omega arith))) in
    (
      alone i j s.shared p q (v.fits i p at_i) (v.fits j q at_j) e,
      Fits-CountFits i s.shared p (v.fits i p at_i),
      never_fails Sound Fits act act-TurnKept s j a q v at_j,
    )
