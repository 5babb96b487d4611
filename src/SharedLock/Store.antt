-- ===== src/SharedLock/Store.antt =====
-- include/yamc_shared_lock.hpp: a program's `shared_lock` objects. An object stands in a slot, so the two
-- objects of a move or a swap may be the same one. `loose` is how often the program holds a mutex shared
-- by itself, with no lock object for it.
use yamc.Common.{
  [], ◌∷◌, replicate, ℕ, ◌-◌, Bool, Option, some, none, List, if◌then◌else◌, ◌==◌, get_elem?, set,
}
use yamc.Fair.WaitQueue.{update}
use yamc.SharedLock.{
  Try, SharedLock, Outcome, blank, locked, deferred, tried, adopted, destroy, before_move, lock,
  try_lock, unlock, release, swap, acquire,
}

pub record Store : Type 0 where
  pub slots : List (Option SharedLock)
  pub held : ℕ → ℕ
  pub loose : ℕ → ℕ

pub data Command : Type 0 where
  makes_blank : (i : ℕ) → Command
  makes_locked makes_deferred makes_adopted : (i k : ℕ) → Command
  makes_tried : (i k : ℕ) (b : Bool) → Command
  destroys : (i : ℕ) → Command
  move_makes move_assigns : (i j : ℕ) → Command
  unlocks releases : (i : ℕ) → Command
  locks : (i : ℕ) (fails : Bool) → Command
  try_locks : (i : ℕ) (c : Try) → Command
  swaps : (i j : ℕ) → Command

-- `refused` is a command on an object that is not there, or an `adopt_lock` of a mutex that the program
-- does not hold; `failed` is an assertion, a null pointer or a mutex that is unlocked and not held.
pub data Result : Type 0 where
  moved : Store → Result
  refused failed : Result

-- The object in a slot, and a slot that is free.
abbrev pub on : Option (Option SharedLock) → (SharedLock → Result) → Result
on (some (some l)) f = f l
on _ f = refused

abbrev pub free : Option (Option SharedLock) → Result → Result
free (some none) r = r
free _ r = refused

-- A step that may fail.
abbrev pub try : {A : Type 0} → Option A → (A → Result) → Result
try none f = failed
try (some a) f = f a

abbrev pub write : ℕ → Option SharedLock → (ℕ → ℕ) → Store → Store
write i l h s = record s { slots = set s.slots i l; held = h }

abbrev pub finish : ℕ → Store → Outcome → Result
finish i s o = moved (write i (some o.lock) o.held s)

-- The shared end of the move members: `this` takes the members of `rhs` over, then `rhs` is emptied.
abbrev pub take_over : ℕ → ℕ → SharedLock → (ℕ → ℕ) → Store → Store
take_over i j r h s = write j (some blank) h (write i (some r) h s)

-- The program holds what `release` leaves locked.
abbrev pub let_go : SharedLock → (ℕ → ℕ) → ℕ → ℕ
let_go l h = elim (release l).1 [ none ↦ h | some k ↦ acquire k l.owns h ]

unfoldable pub run : Command → Store → Result
unfolding locked deferred tried adopted destroy before_move lock try_lock unlock release swap
run (makes_blank i) s = free (get_elem? s.slots i) (moved (write i (some blank) s.held s))
run (makes_locked i k) s = free (get_elem? s.slots i) (finish i s (locked k s.held))
run (makes_deferred i k) s = free (get_elem? s.slots i) (finish i s (deferred k s.held))
run (makes_tried i k b) s = free (get_elem? s.slots i) (finish i s (tried k b s.held))
run (makes_adopted i k) s = free (get_elem? s.slots i) (
    if s.loose k == 0
    then refused
    else finish i (record s { loose = update s.loose k (s.loose k - 1) }) (adopted k s.held))
run (destroys i) s =
    on (get_elem? s.slots i) (λ l. try (destroy l s.held) (λ h. moved (write i none h s)))
run (move_makes i j) s = free (get_elem? s.slots i) (
    on (get_elem? s.slots j)
      (λ r. try (before_move blank s.held) (λ h. moved (take_over i j r h s))))
run (move_assigns i j) s = on (get_elem? s.slots i) (λ l.
    on (get_elem? s.slots j) (λ r. try (before_move l s.held) (λ h. moved (take_over i j r h s))))
run (locks i fails) s = on (get_elem? s.slots i) (λ l. try (lock fails l s.held) (finish i s))
run (try_locks i c) s = on (get_elem? s.slots i) (λ l. try (try_lock c l s.held) (finish i s))
run (unlocks i) s = on (get_elem? s.slots i) (λ l. try (unlock l s.held) (finish i s))
run (swaps i j) s = on (get_elem? s.slots i) (λ l.
    on (get_elem? s.slots j)
      (λ r. moved (write j (some (swap l r).1) s.held (write i (some (swap l r).0) s.held s))))
run (releases i) s =
    on (get_elem? s.slots i)
      (λ l. moved (write i (some (release l).0) s.held (record s { loose = let_go l s.loose })))

-- Commands one after the other, up to a failure; one that is refused changes nothing.
abbrev pub and_then : Result → Store → (Store → Result) → Result
and_then (moved t) s f = f t
and_then refused s f = f s
and_then failed s f = failed

unfoldable pub run_all : List Command → Store → Result
unfolding run
run_all [] s = moved s
run_all (c ∷ cs) s = and_then (run c s) s (run_all cs)

-- `n` free slots, in a program that holds each mutex shared `h` times.
abbrev pub before : ℕ → (ℕ → ℕ) → Store
before n h = record { slots = replicate n none; held = h; loose = h }
