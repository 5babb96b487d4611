-- ===== src/Checked/Shared/Places.antt =====
-- include/checked_shared_mutex.hpp: threads at any number of shared mutexes that share the validator.
use yamc.Common.{ℕ, true, false, List, [], ◌∷◌, if◌then◌else◌, ◌==◌, replicate}
use yamc.Threads.{
  Outcome, returned, waiting, aborted, Turn, refused, settle, Action, call, wake, System,
}
use yamc.RwLock.Policy.{Policy}
use yamc.Validator.{Validator}
use yamc.Checked.{Answer, thrown, deadlock, no_thread}
use yamc.Checked.Shared.{
  Shared, lock, lock_loop, lock_wake, try_lock, unlock, lock_shared, lock_shared_loop,
  lock_shared_wake, try_lock_shared, unlock_shared, do_try_lockwait, try_lock_loop,
  do_try_lockwait_timeout, do_try_lock_sharedwait, try_lock_shared_loop,
  do_try_lock_sharedwait_timeout, shared_mutex,
}

-- The members of every mutex, by its address, and the table.
pub record Mutexes (State V : Type 0) : Type 0 where
  pub states : ℕ → State
  pub e_owners : ℕ → ℕ
  pub s_owners : ℕ → List ℕ
  pub table : V

abbrev pub put : {A : Type 0} → (ℕ → A) → ℕ → A → ℕ → A
put f k a j = if k == j then a else f j

module _ {State V : Type 0} where
  abbrev pub load : ℕ → Mutexes State V → Shared State V
  load k s = record {
    state = s.states k;
    e_owner = s.e_owners k;
    s_owner = s.s_owners k;
    table = s.table;
  }

  abbrev pub save : ℕ → Mutexes State V → Shared State V → Mutexes State V
  save k s m = record {
    states = put s.states k m.state;
    e_owners = put s.e_owners k m.e_owner;
    s_owners = put s.s_owners k m.s_owner;
    table = m.table;
  }

  abbrev pub at :
      ℕ → Mutexes State V → Outcome (Shared State V) Answer → Outcome (Mutexes State V) Answer
  at k s (returned m a n) = returned (save k s m) a n
  at k s (waiting m n) = waiting (save k s m) n
  at k s aborted = aborted

-- Where a thread stands: in no member; in one of the waits at a mutex; in the loop of `lock` or
-- `lock_shared` after a wake-up, between the section of the table that takes it out and the next one; or in
-- no member, after a `lock` or a `lock_shared` that has thrown `deadlock`.
pub data Place : Type 0 where
  outside : Place
  in_lock in_lock_shared in_lock_until in_lock_shared_until : (k : ℕ) → Place
  woken woken_shared reported reported_shared : (k : ℕ) → Place

pub data Method : Type 0 where
  locks try_locks unlocks locks_shared try_locks_shared unlocks_shared : (k : ℕ) → Method
  try_locks_until try_locks_shared_until : (k : ℕ) → Method

-- The place after a member that ends; `p` if it has thrown `deadlock`.
abbrev pub after : Place → Answer → Place
after p (thrown deadlock) = p
after p _ = outside

-- A call of a member. Any thread may make any: misuse throws.
unfoldable pub called :
    {State V : Type 0}
    → Policy State
    → Validator V
    → ℕ
    → Method
    → Mutexes State V
    → Turn (Mutexes State V) Place
unfolding lock try_lock unlock lock_shared try_lock_shared unlock_shared do_try_lockwait
    do_try_lock_sharedwait
called P W i (locks k) s =
    settle (after (reported k)) (in_lock k) (at k s (lock P W k i (load k s)))
called P W i (try_locks k) s = settle (after outside) outside (at k s (try_lock P W k i (load k s)))
called P W i (unlocks k) s = settle (after outside) outside (at k s (unlock P W k i (load k s)))
called P W i (locks_shared k) s =
    settle (after (reported_shared k)) (in_lock_shared k) (at k s (lock_shared P W k i (load k s)))
called P W i (try_locks_shared k) s =
    settle (after outside) outside (at k s (try_lock_shared P W k i (load k s)))
called P W i (unlocks_shared k) s =
    settle (after outside) outside (at k s (unlock_shared P W k i (load k s)))
called P W i (try_locks_until k) s =
    settle (after outside) (in_lock_until k) (at k s (do_try_lockwait P W k i (load k s)))
called P W i (try_locks_shared_until k) s =
    settle (after outside) (in_lock_shared_until k)
      (at k s (do_try_lock_sharedwait P W k i (load k s)))

-- A thread in no member may call any, also after an exception. Between its two sections of the table a thread
-- in `lock` holds the mutex of this object; other threads may take turns there all the same, those at other
-- mutexes with the table and those at this one, which the mutex rules out: this only adds runs.
unfoldable pub act :
    {State V : Type 0}
    → Policy State
    → Validator V
    → ℕ
    → Action Method
    → Mutexes State V
    → Place
    → Turn (Mutexes State V) Place
unfolding called lock_wake lock_loop lock_shared_wake lock_shared_loop try_lock_loop
    do_try_lockwait_timeout try_lock_shared_loop do_try_lock_sharedwait_timeout
act P W i (call m) s outside = called P W i m s
act P W i (call m) s (reported k) = called P W i m s
act P W i (call m) s (reported_shared k) = called P W i m s
act P W i (wake _) s (in_lock k) =
    settle (after (reported k)) (woken k) (at k s (lock_wake P W k i (load k s)))
act P W i (wake _) s (woken k) =
    settle (after (reported k)) (in_lock k) (at k s (lock_loop P W k i (load k s)))
act P W i (wake _) s (in_lock_shared k) =
    settle (after (reported_shared k)) (woken_shared k)
      (at k s (lock_shared_wake P W k i (load k s)))
act P W i (wake _) s (woken_shared k) =
    settle (after (reported_shared k)) (in_lock_shared k)
      (at k s (lock_shared_loop P W k i (load k s)))
act P W i (wake false) s (in_lock_until k) =
    settle (after outside) (in_lock_until k) (at k s (try_lock_loop P W k i (load k s)))
act P W i (wake true) s (in_lock_until k) =
    settle (after outside) (in_lock_until k) (at k s (do_try_lockwait_timeout P W k i (load k s)))
act P W i (wake false) s (in_lock_shared_until k) =
    settle (after outside) (in_lock_shared_until k)
      (at k s (try_lock_shared_loop P W k i (load k s)))
act P W i (wake true) s (in_lock_shared_until k) =
    settle (after outside) (in_lock_shared_until k)
      (at k s (do_try_lock_sharedwait_timeout P W k i (load k s)))
act P W i _ s _ = refused

-- Mutexes constructed at the addresses in a list, and `n` threads.
unfoldable pub construct :
    {State V : Type 0} → Policy State → Validator V → V → List ℕ → Mutexes State V
unfolding shared_mutex
construct P W v [] = record {
  states = λ k. P.initial;
  e_owners = λ k. no_thread;
  s_owners = λ k. [];
  table = v;
}
construct P W v (k ∷ ks) = let s = construct P W v ks in save k s (shared_mutex P W k s.table)

unfoldable pub init :
    {State V : Type 0}
    → Policy State
    → Validator V
    → V
    → List ℕ
    → ℕ
    → System (Mutexes State V) Place
unfolding construct
init P W v ks n = record { shared = construct P W v ks; threads = replicate n outside }
