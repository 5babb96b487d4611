-- ===== src/Checked/Shared/Closed.antt =====
-- include/checked_shared_mutex.hpp: while the policy keeps readers out of a mutex, no turn adds a shared owner
-- to it.
use yamc.Common.{
  ℕ, ◌≤◌, ◌≡◌, List, [], ◌∷◌, inl, inr, eq_or_ne, ◌==◌, arith, subst, sym, true, false, length,
}
use yamc.Threads.{
  Turn, moved, refused, failed, Action, call, wake, Outcome, returned, waiting, aborted, settle,
}
use yamc.RwLock.Policy.{Policy}
use yamc.Validator.{Validator, remove_elem}
use yamc.Checked.{Answer, tid}
use yamc.Checked.Shared.{
  Shared, enter, begin_wait, lock, lock_wake, lock_shared_wake, try_lock, unlock, lock_shared,
  try_lock_shared, unlock_shared, do_try_lockwait, try_lock_loop, do_try_lockwait_timeout,
  do_try_lock_sharedwait, try_lock_shared_loop, do_try_lock_sharedwait_timeout, lock_loop,
  lock_shared_loop,
}
use yamc.Checked.Shared.Places.{
  Mutexes, load, save, at, Place, outside, in_lock, in_lock_shared, in_lock_until,
  in_lock_shared_until, Method, locks, try_locks, unlocks, locks_shared, try_locks_shared,
  unlocks_shared, try_locks_until, try_locks_shared_until, woken, woken_shared, reported,
  reported_shared, after, called, act,
}

length-remove_elem-le : (xs : List ℕ) (a : ℕ) → length (remove_elem xs a) ≤ length xs
length-remove_elem-le [] a = omega arith
length-remove_elem-le (x ∷ xs) a = ground (arith, length-remove_elem-le xs a)

-- A section adds nobody to `s_owner_`.
abbrev Shrinks : {State V : Type 0} → List ℕ → Outcome (Shared State V) Answer → Type 0
Shrinks l (returned s _ _) = length s.s_owner ≤ length l
Shrinks l (waiting s _) = length s.s_owner ≤ length l
Shrinks l aborted = Unit {0}

module _ {State V : Type 0} (P : Policy State) (W : Validator V) (k i : ℕ)
    (s : Shared State V) where
  enter-Shrinks : Shrinks s.s_owner (enter P W k i s)
  unfolding enter
  enter-Shrinks = ground arith

  begin_wait-Shrinks : Shrinks s.s_owner (begin_wait P W k i s)
  unfolding begin_wait
  begin_wait-Shrinks = ground arith

  try_lock-Shrinks : Shrinks s.s_owner (try_lock P W k i s)
  unfolding try_lock
  try_lock-Shrinks = ground arith

  lock-Shrinks : Shrinks s.s_owner (lock P W k i s)
  unfolding lock
  lock-Shrinks = ground arith

  unlock-Shrinks : Shrinks s.s_owner (unlock P W k i s)
  unfolding unlock
  unlock-Shrinks = ground arith

  unlock_shared-Shrinks : Shrinks s.s_owner (unlock_shared P W k i s)
  unfolding unlock_shared
  unlock_shared-Shrinks = ground (arith, length-remove_elem-le s.s_owner (tid i))

  module _ (busy : P.wait_rlock s.state ≡ true) where
    lock_shared_loop-Shrinks : Shrinks s.s_owner (lock_shared_loop P W k i s)
    unfolding lock_shared_loop
    lock_shared_loop-Shrinks = ground arith

    lock_shared-Shrinks : Shrinks s.s_owner (lock_shared P W k i s)
    unfolding lock_shared
    lock_shared-Shrinks = ground arith

    try_lock_shared-Shrinks : Shrinks s.s_owner (try_lock_shared P W k i s)
    unfolding try_lock_shared
    try_lock_shared-Shrinks = ground arith

    do_try_lock_sharedwait-Shrinks : Shrinks s.s_owner (do_try_lock_sharedwait P W k i s)
    unfolding do_try_lock_sharedwait
    do_try_lock_sharedwait-Shrinks = ground arith

    do_try_lock_sharedwait_timeout-Shrinks :
        Shrinks s.s_owner (do_try_lock_sharedwait_timeout P W k i s)
    unfolding do_try_lock_sharedwait_timeout
    do_try_lock_sharedwait_timeout-Shrinks = ground arith

  lock_loop-Shrinks : Shrinks s.s_owner (lock_loop P W k i s)
  unfolding lock_loop
  lock_loop-Shrinks = ground arith

  try_lock_loop-Shrinks : Shrinks s.s_owner (try_lock_loop P W k i s)
  unfolding try_lock_loop
  try_lock_loop-Shrinks = ground arith

  do_try_lockwait-Shrinks : Shrinks s.s_owner (do_try_lockwait P W k i s)
  unfolding do_try_lockwait
  do_try_lockwait-Shrinks = ground arith

  do_try_lockwait_timeout-Shrinks : Shrinks s.s_owner (do_try_lockwait_timeout P W k i s)
  unfolding do_try_lockwait_timeout
  do_try_lockwait_timeout-Shrinks = ground arith

  try_lock_shared_loop-Shrinks :
      P.wait_rlock s.state ≡ true → Shrinks s.s_owner (try_lock_shared_loop P W k i s)
  unfolding try_lock_shared_loop
  try_lock_shared_loop-Shrinks busy = ground arith

module _ {State V : Type 0} (P : Policy State) (W : Validator V) (i k : ℕ) (s : Mutexes State V)
    (busy : P.wait_rlock (s.states k) ≡ true) where
  abbrev pub TurnShrinks : Turn (Mutexes State V) Place → Type 0
  TurnShrinks (moved t _ _) = length (t.s_owners k) ≤ length (s.s_owners k)
  TurnShrinks refused = Unit {0}
  TurnShrinks failed = Unit {0}

  saved-le :
      (j : ℕ) (m : Shared State V)
      → (P.wait_rlock (s.states j) ≡ true → length m.s_owner ≤ length (s.s_owners j))
      → length ((save j s m).s_owners k) ≤ length (s.s_owners k)
  saved-le j m h = elim (eq_or_ne j k) [
    | inl e ↦
        let here : (j == k) ≡ true = ground arith in
        rw here (
          subst (λ x. length m.s_owner ≤ length (s.s_owners x)) e
            (h (subst (λ x. P.wait_rlock (s.states x) ≡ true) (sym e) busy)))
    | inr ne ↦ let off : (j == k) ≡ false = ground arith in rw off (omega arith)
  ]

  lifted-Shrinks :
      (j : ℕ) (next : Answer → Place) (w : Place) (u : Outcome (Shared State V) Answer)
      → (P.wait_rlock (s.states j) ≡ true → Shrinks (s.s_owners j) u)
      → TurnShrinks (settle next w (at j s u))
  lifted-Shrinks j next w (returned m a _) h = saved-le j m h
  lifted-Shrinks j next w (waiting m _) h = saved-le j m h
  lifted-Shrinks j next w aborted h = tt

  called-Shrinks : (m : Method) → TurnShrinks (called P W i m s)
  unfolding called
  called-Shrinks (locks j) = lifted-Shrinks j _ _ _ (λ b. lock-Shrinks P W j i (load j s))
  called-Shrinks (try_locks j) = lifted-Shrinks j _ _ _ (λ b. try_lock-Shrinks P W j i (load j s))
  called-Shrinks (unlocks j) = lifted-Shrinks j _ _ _ (λ b. unlock-Shrinks P W j i (load j s))
  called-Shrinks (locks_shared j) =
      lifted-Shrinks j _ _ _ (λ b. lock_shared-Shrinks P W j i (load j s) b)
  called-Shrinks (try_locks_shared j) =
      lifted-Shrinks j _ _ _ (λ b. try_lock_shared-Shrinks P W j i (load j s) b)
  called-Shrinks (unlocks_shared j) =
      lifted-Shrinks j _ _ _ (λ b. unlock_shared-Shrinks P W j i (load j s))
  called-Shrinks (try_locks_until j) =
      lifted-Shrinks j _ _ _ (λ b. do_try_lockwait-Shrinks P W j i (load j s))
  called-Shrinks (try_locks_shared_until j) =
      lifted-Shrinks j _ _ _ (λ b. do_try_lock_sharedwait-Shrinks P W j i (load j s) b)

  pub act-Shrinks : (a : Action Method) (p : Place) → TurnShrinks (act P W i a s p)
  unfolding act lock_wake lock_shared_wake
  act-Shrinks (call m) outside = called-Shrinks m
  act-Shrinks (call m) (reported j) = called-Shrinks m
  act-Shrinks (call m) (reported_shared j) = called-Shrinks m
  act-Shrinks (wake _) (in_lock j) =
      lifted-Shrinks j (after (reported j)) (woken j) (lock_wake P W j i (load j s))
        (λ b. omega arith)
  act-Shrinks (wake _) (woken j) =
      lifted-Shrinks j _ _ _ (λ b. lock_loop-Shrinks P W j i (load j s))
  act-Shrinks (wake _) (in_lock_shared j) =
      lifted-Shrinks j (after (reported_shared j)) (woken_shared j)
        (lock_shared_wake P W j i (load j s)) (λ b. omega arith)
  act-Shrinks (wake _) (woken_shared j) =
      lifted-Shrinks j _ _ _ (λ b. lock_shared_loop-Shrinks P W j i (load j s) b)
  act-Shrinks (wake false) (in_lock_until j) =
      lifted-Shrinks j _ _ _ (λ b. try_lock_loop-Shrinks P W j i (load j s))
  act-Shrinks (wake true) (in_lock_until j) =
      lifted-Shrinks j _ _ _ (λ b. do_try_lockwait_timeout-Shrinks P W j i (load j s))
  act-Shrinks (wake false) (in_lock_shared_until j) =
      lifted-Shrinks j _ _ _ (λ b. try_lock_shared_loop-Shrinks P W j i (load j s) b)
  act-Shrinks (wake true) (in_lock_shared_until j) =
      lifted-Shrinks j _ _ _ (λ b. do_try_lock_sharedwait_timeout-Shrinks P W j i (load j s) b)
  act-Shrinks _ p = tt
