-- ===== src/SharedLock/Commands.antt =====
-- include/yamc_shared_lock.hpp: programs of `shared_lock` objects, command by command.
use yamc.Common.{
  eq_or_ne, sym, ap, [], ◌∷◌, replicate, total-replicate_zero, subst, ◌∙◌, ℕ, ◌+◌, ◌-◌, ◌≡◌, refl,
  Bool, true, false, Option, some, none, List, if◌then◌else◌, ◌==◌, get_elem?, set, total, others,
  total-get_elem?, total-set, arith, ◌⊎◌, inl, inr, Bool-cases, get_elem?-set_self,
  get_elem?-set_ne,
}
use yamc.Fair.WaitQueue.{update}
use yamc.SharedLock.{
  SharedLock, Outcome, acquire, before_move, destroy, try_lock, lock, unlock, blank, release,
  locked, deferred, tried, adopted,
}
use yamc.SharedLock.Store.{
  and_then, run_all, before, Store, Command, Result, moved, refused, failed, run, makes_blank,
  makes_locked, makes_deferred, makes_adopted, makes_tried, destroys, move_makes, move_assigns,
  locks, unlocks, releases, try_locks, swaps, try, finish, write, on, free, take_over, let_go,
}
use yamc.SharedLock.Balance.{
  Balanced, owned, astray, Slot, Ends, Empties, object, destroy-Empties, before_move-Empties,
  try_lock-Ends, lock-Ends, unlock-Ends,
}

-- A result with the balance kept, or a failure for the reason `F`.
abbrev pub Fine : Type 0 → Result → Type 0
Fine F (moved t) = Balanced t
Fine F refused = Unit {0}
Fine F failed = F

module _ (F : Type 0) where
  on-Fine :
      (g : Option (Option SharedLock)) (f : SharedLock → Result)
      → ((l : SharedLock) → g ≡ some (some l) → Fine F (f l))
      → Fine F (on g f)
  on-Fine none f h = tt
  on-Fine (some none) f h = tt
  on-Fine (some (some l)) f h = h l refl

  free-Fine :
      (g : Option (Option SharedLock)) (r : Result) → (g ≡ some none → Fine F r) → Fine F (free g r)
  free-Fine none r h = tt
  free-Fine (some none) r h = h refl
  free-Fine (some (some l)) r h = tt

-- The two writes of a move and of a swap, when both slots may be the same.
module _ (f : Option SharedLock → ℕ) (xs : List (Option SharedLock)) (i j : ℕ)
    {x r : Option SharedLock} (at : get_elem? xs i ≡ some x) (from : get_elem? xs j ≡ some r) where
  still_there : get_elem? (set xs i r) j ≡ some r
  still_there = elim (eq_or_ne i j) [
    | inl e ↦ subst (λ k. get_elem? (set xs i r) k ≡ some r) e (get_elem?-set_self xs i r at)
    | inr ne ↦ get_elem?-set_ne xs i j r ne ∙ from
  ]

  total-two : (y : Option SharedLock) → total f (set (set xs i r) j y) ≡ others f xs i + f y
  total-two y = omega (
    arith,
    total-set f xs i r at,
    total-get_elem? f (set xs i r) j still_there,
    total-set f (set xs i r) j y still_there,
  )

module _ (s : Store) (v : Balanced s) (i : ℕ) where
  -- What is held of each mutex beside what slot `i` owns.
  abbrev rest : ℕ → ℕ
  rest k = others (owned k) s.slots i + s.loose k

  at-Slot : {x : Option SharedLock} → get_elem? s.slots i ≡ some x → Slot rest x s.held
  at-Slot {x} at = (
    (λ k. omega (arith, v.0 k, total-get_elem? (owned k) s.slots i at)),
    omega (arith, v.1, total-get_elem? astray s.slots i at),
  )

  put_loose :
      {x : Option SharedLock} (y : Option SharedLock) (h loose : ℕ → ℕ)
      → get_elem? s.slots i ≡ some x
      → ((k : ℕ) → h k ≡ others (owned k) s.slots i + loose k + owned k y)
      → astray y ≡ 0
      → Balanced (write i y h (record s { loose = loose }))
  put_loose {x} y h loose at e z = (
    (λ k. omega (arith, e k, total-set (owned k) s.slots i y at)),
    omega (arith, v.1, total-get_elem? astray s.slots i at, total-set astray s.slots i y at, z),
  )

  put :
      {x : Option SharedLock} (y : Option SharedLock) (h : ℕ → ℕ)
      → get_elem? s.slots i ≡ some x
      → Slot rest y h
      → Balanced (write i y h s)
  put y h at (e, z) = put_loose y h s.loose at e z

  finish-Fine :
      {x : Option SharedLock} (F : Type 0) (o : Option Outcome)
      → get_elem? s.slots i ≡ some x
      → Ends rest o
      → Fine F (try o (finish i s))
  finish-Fine F none at e = absurd e
  finish-Fine F (some u) at e = put (some u.lock) u.held at e

  put_none :
      {x : Option SharedLock} (F : Type 0) (o : Option (ℕ → ℕ))
      → get_elem? s.slots i ≡ some x
      → Empties rest o
      → Fine F (try o (λ h. moved (write i none h s)))
  put_none F none at e = absurd e
  put_none F (some h) at e = put none h at ((λ k. ground (arith, e k)), refl)

  take_over-Fine :
      {x : Option SharedLock} (F : Type 0) (o : Option (ℕ → ℕ)) (j : ℕ) (r : SharedLock)
      → get_elem? s.slots i ≡ some x
      → get_elem? s.slots j ≡ some (some r)
      → Empties rest o
      → Fine F (try o (λ h. moved (take_over i j r h s)))
  take_over-Fine F none j r at from e = absurd e
  take_over-Fine F (some h) j r at from e = (
    (λ k. omega (arith, e k, total-two (owned k) s.slots i j at from (some blank))),
    omega (
      arith,
      v.1,
      total-get_elem? astray s.slots i at,
      total-two astray s.slots i j at from (some blank),
    ),
  )

-- `release` hands what the object owned to the program.
released :
    (o : ℕ → ℕ) (p : Option ℕ) (q : Bool) (h loose : ℕ → ℕ)
    → Slot (λ k. o k + loose k) (some (object p q)) h
    → (k : ℕ) → h k ≡ o k + let_go (object p q) loose k + owned k (some blank)
unfolding release
released o none q h loose (e, z) = λ k. ground (arith, e k)
released o (some m) true h loose (e, z) = λ k. ground (arith, e k, e m)
released o (some m) false h loose (e, z) = λ k. ground (arith, e k)

-- Why a command may fail: `unlock` of a lock that has no mutex.
abbrev pub NoMutex : Command → Store → Type 0
NoMutex c s =
    (i : ℕ) × (l : SharedLock) × (c ≡ unlocks i)
    × (get_elem? s.slots i ≡ some (some l))
    × (l.pm ≡ none)

module _ (s : Store) (v : Balanced s) where
  unlocks-Fine : (i : ℕ) → Fine (NoMutex (unlocks i) s) (run (unlocks i) s)
  unfolding run unlock
  unlocks-Fine i = on-Fine _ (get_elem? s.slots i) _ (λ l at.
      elim (unlock-Ends (rest s v i) l.pm l.owns s.held (at-Slot s v i at)) [
        | inl e ↦ rw e (i, l, refl, at, e)
        | inr e ↦ finish-Fine s v i _ (unlock l s.held) at e
      ])

  made :
      (i k : ℕ) (b : Bool)
      → get_elem? s.slots i ≡ some none
      → Balanced (write i (some (object (some k) b)) (acquire k b s.held) s)
  made i k true at =
      put s v i (some (object (some k) true)) (acquire k true s.held) at
        ((λ m. ground (arith, (at-Slot s v i at).0 m, (at-Slot s v i at).0 k)), refl)
  made i k false at =
      put s v i (some (object (some k) false)) s.held at
        ((λ m. ground (arith, (at-Slot s v i at).0 m)), refl)

  adopts :
      (i k : ℕ)
      → get_elem? s.slots i ≡ some none
      → Fine (NoMutex (makes_adopted i k) s) (
          if s.loose k == 0
          then refused
          else finish i (record s { loose = update s.loose k (s.loose k - 1) }) (adopted k s.held))
  unfolding adopted
  adopts i k at = elim (Bool-cases (s.loose k == 0)) [
    | inl e ↦ rw e tt
    | inr e ↦ rw e (
        put_loose s v i (some (object (some k) true)) s.held (update s.loose k (s.loose k - 1)) at
          (λ m. ground (arith, (at-Slot s v i at).0 m)) refl)
  ]

  run-Fine : (c : Command) → Fine (NoMutex c s) (run c s)
  unfolding run locked deferred tried adopted
  run-Fine (makes_blank i) =
      free-Fine _ (get_elem? s.slots i) _
        (λ at. put s v i (some blank) s.held at (at-Slot s v i at))
  run-Fine (makes_locked i k) = free-Fine _ (get_elem? s.slots i) _ (λ at. made i k true at)
  run-Fine (makes_deferred i k) = free-Fine _ (get_elem? s.slots i) _ (λ at.
      put s v i (some (object (some k) false)) s.held at
        ((λ m. ground (arith, (at-Slot s v i at).0 m)), refl))
  run-Fine (makes_tried i k b) = free-Fine _ (get_elem? s.slots i) _ (λ at. made i k b at)
  run-Fine (makes_adopted i k) = free-Fine _ (get_elem? s.slots i) _ (λ at. adopts i k at)
  run-Fine (destroys i) = on-Fine _ (get_elem? s.slots i) _ (λ l at.
      put_none s v i _ (destroy l s.held) at
        (destroy-Empties (rest s v i) l.pm l.owns s.held (at-Slot s v i at)))
  run-Fine (move_makes i j) = free-Fine _ (get_elem? s.slots i) _ (λ at.
      on-Fine _ (get_elem? s.slots j) _ (λ r from.
        take_over-Fine s v i (NoMutex (move_makes i j) s) (before_move blank s.held) j r at from
          (before_move-Empties (rest s v i) none false s.held (at-Slot s v i at))))
  run-Fine (move_assigns i j) = on-Fine _ (get_elem? s.slots i) _ (λ l at.
      on-Fine _ (get_elem? s.slots j) _ (λ r from.
        take_over-Fine s v i _ (before_move l s.held) j r at from
          (before_move-Empties (rest s v i) l.pm l.owns s.held (at-Slot s v i at))))
  run-Fine (locks i fails) = on-Fine _ (get_elem? s.slots i) _ (λ l at.
      finish-Fine s v i _ (lock fails l s.held) at
        (lock-Ends (rest s v i) fails l.pm l.owns s.held (at-Slot s v i at)))
  run-Fine (try_locks i c) = on-Fine _ (get_elem? s.slots i) _ (λ l at.
      finish-Fine s v i _ (try_lock c l s.held) at
        (try_lock-Ends (rest s v i) c l.pm l.owns s.held (at-Slot s v i at)))
  run-Fine (unlocks i) = unlocks-Fine i
  run-Fine (swaps i j) = on-Fine _ (get_elem? s.slots i) _ (λ l at.
      on-Fine _ (get_elem? s.slots j) _ (λ r from. (
        (λ k. omega (
          arith,
          v.0 k,
          total-get_elem? (owned k) s.slots i at,
          total-two (owned k) s.slots i j at from (some l),
        )),
        omega (
          arith,
          v.1,
          total-get_elem? astray s.slots i at,
          total-two astray s.slots i j at from (some l),
        ),
      )))
  run-Fine (releases i) = on-Fine _ (get_elem? s.slots i) _ (λ l at.
      put_loose s v i (some blank) s.held (let_go l s.loose) at
        (released (λ k. others (owned k) s.slots i) l.pm l.owns s.held s.loose (at-Slot s v i at))
        refl)

Fine-cases :
    (F : Type 0) (r : Result)
    → Fine F r
    → (r ≡ refused) ⊎ ((t : Store) × (r ≡ moved t) × Balanced t) ⊎ ((r ≡ failed) × F)
Fine-cases F refused f = inl refl
Fine-cases F (moved t) f = inr (inl (t, refl, f))
Fine-cases F failed f = inr (inr (refl, f))

-- From a store in which each mutex is held shared as often as objects own it and the program holds it by
-- itself, a command is refused, or leads to such a store, or is an `unlock` of a lock that has no mutex.
-- No member unlocks a mutex that is not held, and none loses a hold.
pub holds_balance :
    (c : Command) (s : Store)
    → Balanced s
    → (run c s ≡ refused)
      ⊎ ((t : Store) × (run c s ≡ moved t) × Balanced t)
      ⊎ ((run c s ≡ failed)
          × ((i : ℕ) × (l : SharedLock) × (c ≡ unlocks i)
              × (get_elem? s.slots i ≡ some (some l))
              × (l.pm ≡ none)))
holds_balance c s v = Fine-cases (NoMutex c s) (run c s) (run-Fine s v c)

run_all-Fine : (cs : List Command) (s : Store) → Balanced s → Fine (Unit {0}) (run_all cs s)
unfolding run_all
run_all-Fine [] s v = v
run_all-Fine (c ∷ cs) s v = elim (holds_balance c s v) [
  | inl r ↦ subst later (sym r) (run_all-Fine cs s v)
  | inr (inl (u, r, b)) ↦ subst later (sym r) (run_all-Fine cs u b)
  | inr (inr (r, _)) ↦ subst later (sym r) tt
]
  where
    later : Result → Type 0
    later r = Fine (Unit {0}) (and_then r s (run_all cs))

-- When all lock objects of a program have been destroyed, each mutex is held shared as often as the
-- program holds it by itself: after any commands, from a program without lock objects.
pub destroyed_locks_release :
    (cs : List Command) (n m : ℕ) (h : ℕ → ℕ) {t : Store}
    → run_all cs (before n h) ≡ moved t
    → t.slots ≡ replicate m none
    → (k : ℕ) → t.held k ≡ t.loose k
destroyed_locks_release cs n m h {t} e gone k =
    let v = subst (Fine (Unit {0})) e (
      run_all-Fine cs (before n h) (
        (λ j. omega (arith, total-replicate_zero (owned j) n none refl)),
        total-replicate_zero astray n none refl,
      )) in
    omega (arith, v.0 k, ap (total (owned k)) gone, total-replicate_zero (owned k) m none refl)
