-- ===== src/Validator.antt =====
-- include/yamc_lock_validator.hpp: `yamc::validator::deadlock` and `yamc::validator::null`. The table is
-- global and every member holds `global_guard`, so a member is one step. A `std::unordered_map` is a list
-- of its entries, in any order. What is printed is left out.
pub mod WaitsFor
pub mod Search
pub mod Changes
pub mod Cycles
pub mod Stale
pub mod Waiters
pub mod Fuel
pub mod Examples
use yamc.Common.{
  ℕ, zero, suc, ◌+◌, Bool, true, false, Option, some, none, List, [], ◌∷◌, ◌++◌, if◌then◌else◌,
  ◌==◌, ◌||◌,
}

-- `deadlock::entry`, with its key in the map.
pub record Entry : Type 0 where
  pub key : ℕ
  pub mid : ℕ
  pub owners : List ℕ
  pub waiters : List ℕ

pub record Table : Type 0 where
  pub counter : ℕ
  pub mutexmap : List Entry

-- The user's view of a validator: `enqueue` also says whether the wait may go on, and `none` is a call
-- that does not return.
pub record Validator (V : Type 0) : Type 0 where
  pub ctor : ℕ → V → V
  pub dtor : ℕ → V → V
  pub locked : ℕ → ℕ → V → V
  pub unlocked : ℕ → ℕ → V → V
  pub enqueue : ℕ → ℕ → V → Option (Bool × V)
  pub dequeue : ℕ → ℕ → V → V

-- `std::find(v.begin(), v.end(), a) != v.end()`.
abbrev pub contains : List ℕ → ℕ → Bool
contains [] a = false
contains (x ∷ xs) a = x == a || contains xs a

abbrev pub remove_elem : List ℕ → ℕ → List ℕ
remove_elem [] a = []
remove_elem (x ∷ xs) a = let rest = remove_elem xs a in if x == a then rest else x ∷ rest

-- `f` applied to `mutexmap[k]`, which is added where it is missing.
abbrev pub change : ℕ → (Entry → Entry) → List Entry → List Entry
change k f [] = f (record { key = k; mid = 0; owners = []; waiters = [] }) ∷ []
change k f (e ∷ es) = if e.key == k then f e ∷ es else e ∷ change k f es

abbrev pub erase : ℕ → List Entry → List Entry
erase k [] = []
erase k (e ∷ es) = if e.key == k then es else e ∷ erase k es

-- What the members do to an entry: `{ mid, {}, {} }`, `push_back` and `remove_elem`.
abbrev pub fresh : ℕ → Entry → Entry
fresh mid e = record e { mid = mid; owners = []; waiters = [] }

abbrev pub add_owner : ℕ → Entry → Entry
add_owner tid e = record e { owners = e.owners ++ tid ∷ [] }

abbrev pub remove_owner : ℕ → Entry → Entry
remove_owner tid e = record e { owners = remove_elem e.owners tid }

abbrev pub add_waiter : ℕ → Entry → Entry
add_waiter tid e = record e { waiters = e.waiters ++ tid ∷ [] }

abbrev pub remove_waiter : ℕ → Entry → Entry
remove_waiter tid e = record e { waiters = remove_elem e.waiters tid }

-- The loop over `waiters`, with `go` for the recursive call.
pub scan_waiters : (ℕ → Option Bool) → List ℕ → Option Bool
scan_waiters go [] = some false
scan_waiters go (w ∷ ws) =
    let rest = scan_waiters go ws in
    elim (go w) [ none ↦ none | some found ↦ if found then some true else rest ]

-- The loop over the map.
pub scan_entries : (ℕ → Option Bool) → ℕ → ℕ → List Entry → Option Bool
unfolding scan_waiters
scan_entries go end tid [] = some false
scan_entries go end tid (e ∷ es) =
    let rest = scan_entries go end tid es in
    if contains e.owners tid
    then if e.key == end then some true else elim (scan_waiters go e.waiters) [
      | none ↦ none
      | some found ↦ if found then some true else rest
    ]
    else rest

-- The fuel bounds the depth of the recursion; `none` is its end.
pub find_closepath : ℕ → List Entry → ℕ → ℕ → Option Bool
unfolding scan_entries
find_closepath zero m end tid = none
find_closepath (suc fuel) m end tid = scan_entries (find_closepath fuel m end) end tid m

unfoldable pub ctor : ℕ → Table → Table
ctor k t = record {
  counter = t.counter + 1;
  mutexmap = change k (fresh (t.counter + 1)) t.mutexmap;
}

unfoldable pub dtor : ℕ → Table → Table
dtor k t = record t { mutexmap = erase k t.mutexmap }

unfoldable pub locked : ℕ → ℕ → Table → Table
locked k tid t = record t { mutexmap = change k (add_owner tid) t.mutexmap }

unfoldable pub unlocked : ℕ → ℕ → Table → Table
unlocked k tid t = record t { mutexmap = change k (remove_owner tid) t.mutexmap }

-- `waiters.push_back(tid)`, which `enqueue` does first.
abbrev pub push_waiter : ℕ → ℕ → Table → Table
push_waiter k tid t = record t { mutexmap = change k (add_waiter tid) t.mutexmap }

unfoldable pub enqueue : ℕ → ℕ → ℕ → Table → Option (Bool × Table)
unfolding find_closepath
enqueue fuel k tid t =
    let t' = push_waiter k tid t in
    elim (find_closepath fuel t'.mutexmap k tid) [
      | none ↦ none
      | some found ↦ some (if found then false else true, t')
    ]

unfoldable pub dequeue : ℕ → ℕ → Table → Table
dequeue k tid t = record t { mutexmap = change k (remove_waiter tid) t.mutexmap }

unfoldable pub deadlock : ℕ → Validator Table
unfolding ctor dtor locked unlocked enqueue dequeue
deadlock fuel = record {
  ctor = ctor;
  dtor = dtor;
  locked = locked;
  unlocked = unlocked;
  enqueue = enqueue fuel;
  dequeue = dequeue;
}

unfoldable pub null : Validator (Unit {0})
null = record {
  ctor = λ k v. v;
  dtor = λ k v. v;
  locked = λ k tid v. v;
  unlocked = λ k tid v. v;
  enqueue = λ k tid v. some (true, v);
  dequeue = λ k tid v. v;
}
