-- ===== src/Fair/Shared/Acts.antt =====
-- include/fair_shared_mutex.hpp: each turn of a thread keeps the queue in order.
use yamc.Common.{
  ℕ, zero, suc, ◌<◌, refl, inl, inr, sym, subst, Bool, true, false, List, length, arith,
}
use yamc.Threads.{Action, call, wake, settle}
use yamc.Fair.WaitQueue.{Store, request}
use yamc.Fair.WaitQueue.Members.{In-split}
use yamc.Fair.Shared.{impl_lock_loop, impl_unlock, impl_try_lockwait_timeout, impl_unlock_shared}
use yamc.Fair.Shared.Places.{
  Place, outside, in_lock, in_lock_until, in_lock_shared, in_lock_shared_until, owner, shared_owner,
  granted, Method, locks, try_locks, try_locks_until, unlocks, locks_shared, try_locks_shared,
  try_locks_shared_until, unlocks_shared, act,
}
use yamc.Fair.Shared.Line.{Held, free, exclusive, shared, Shape}
use yamc.Fair.Shared.Turns.{TurnKept, Ready, Waiter, Exclusively, lock-Waiter, shared-Waiter}
use yamc.Fair.Shared.Exclusive.{lock-TurnKept, take-TurnKept, wait-TurnKept, front_is}
use yamc.Fair.Shared.Release.{unlock-TurnKept}
use yamc.Fair.Shared.GivingUp.{give_up-TurnKept}
use yamc.Fair.Shared.Sharing.{lock_shared-TurnKept}
use yamc.Fair.Shared.SharedWaits.{wake_shared-TurnKept}
use yamc.Fair.Shared.Leaving.{unlock_shared-TurnKept}

-- A wake-up in the wait for an exclusive lock, with a timeout or without.
wake-TurnKept :
    (i fuel : ℕ) (h : Store) (w : Place) (at : Waiter i Exclusively w) (held : Held) (l : List ℕ)
    → Ready i h held l w
    → length l < fuel
    → TurnKept i h held l w (settle granted w (impl_lock_loop i h))
      × TurnKept i h held l w (settle granted w (impl_try_lockwait_timeout fuel i h))
wake-TurnKept i fuel h w at held l v lt =
    let (there, z) = (at.stand h.status l).0 v.stands in
    elim (front_is i h held l v.shape there) [
      | inl ne ↦
          let (us, ys, e) = In-split (request i) l there in
          (
            wait-TurnKept i h w at held l v.shape v.stands ne,
            subst
                (λ k. TurnKept i h held k w (settle granted w (impl_try_lockwait_timeout fuel i h)))
                (sym e)
                (give_up-TurnKept i h w at held us ys fuel (subst (Shape h held) e v.shape) z ne
                  (subst (λ k. length k < fuel) e lt)),
          )
      | inr (xs, unheld, e, front) ↦
          let taken =
            take-TurnKept i h w at fuel xs
              (subst (Shape h free) e (subst (λ k. Shape h k l) unheld v.shape)) z in
          subst
            (λ k.
              TurnKept i h k l w (settle granted w (impl_lock_loop i h))
              × TurnKept i h k l w (settle granted w (impl_try_lockwait_timeout fuel i h)))
            (sym unheld)
            (subst
              (λ k.
                TurnKept i h free k w (settle granted w (impl_lock_loop i h))
                × TurnKept i h free k w (settle granted w (impl_try_lockwait_timeout fuel i h)))
              (sym e) taken)
    ]

unlocks-TurnKept :
    (i fuel : ℕ) (phased : Bool) (h : Store) (held : Held) (l : List ℕ)
    → Ready i h held l owner
    → length l < fuel
    → TurnKept i h held l owner (settle (λ _. outside) owner (impl_unlock fuel phased h))
unlocks-TurnKept i fuel phased h exclusive l v lt =
    unlock-TurnKept i fuel phased h l v.shape v.stands lt
unlocks-TurnKept i fuel phased h free l v lt = absurd (omega (arith, v.may_own))
unlocks-TurnKept i fuel phased h (shared c) l v lt = absurd (omega (arith, v.may_own))

unlocks_shared-TurnKept :
    (i : ℕ) (h : Store) (held : Held) (l : List ℕ)
    → Ready i h held l shared_owner
    → TurnKept i h held l shared_owner (settle (λ _. outside) shared_owner (impl_unlock_shared h))
unlocks_shared-TurnKept i h (shared (suc c)) l v = unlock_shared-TurnKept i h c l v.shape v.stands
unlocks_shared-TurnKept i h (shared zero) l v = absurd (omega (arith, v.may_share))
unlocks_shared-TurnKept i h free l v = absurd (omega (arith, v.may_share))
unlocks_shared-TurnKept i h exclusive l v = absurd (omega (arith, v.may_share))

pub act-TurnKept :
    (fuel : ℕ) (phased : Bool) (i : ℕ) (a : Action Method) (h : Store) (held : Held) (l : List ℕ)
    (p : Place)
    → Ready i h held l p
    → length l < fuel
    → TurnKept i h held l p (act fuel phased i a h p)
unfolding act
act-TurnKept fuel phased i (call locks) h held l outside v lt =
    (lock-TurnKept i h in_lock (lock-Waiter i).0 held l v.shape v.stands).0
act-TurnKept fuel phased i (call try_locks) h held l outside v lt =
    (lock-TurnKept i h in_lock (lock-Waiter i).0 held l v.shape v.stands).1
act-TurnKept fuel phased i (call try_locks_until) h held l outside v lt =
    (lock-TurnKept i h in_lock_until (lock-Waiter i).1 held l v.shape v.stands).0
act-TurnKept fuel phased i (call unlocks) h held l owner v lt =
    unlocks-TurnKept i fuel phased h held l v lt
act-TurnKept fuel phased i (call locks_shared) h held l outside v lt =
    (lock_shared-TurnKept i h in_lock_shared (shared-Waiter i).0 held l v.shape v.stands
      (v.room refl)).0
act-TurnKept fuel phased i (call try_locks_shared) h held l outside v lt =
    (lock_shared-TurnKept i h in_lock_shared (shared-Waiter i).0 held l v.shape v.stands
      (v.room refl)).1
act-TurnKept fuel phased i (call try_locks_shared_until) h held l outside v lt =
    (lock_shared-TurnKept i h in_lock_shared_until (shared-Waiter i).1 held l v.shape v.stands
      (v.room refl)).0
act-TurnKept fuel phased i (call unlocks_shared) h held l shared_owner v lt =
    unlocks_shared-TurnKept i h held l v
act-TurnKept fuel phased i (wake t) h held l in_lock v lt =
    (wake-TurnKept i fuel h in_lock (lock-Waiter i).0 held l v lt).0
act-TurnKept fuel phased i (wake false) h held l in_lock_until v lt =
    (wake-TurnKept i fuel h in_lock_until (lock-Waiter i).1 held l v lt).0
act-TurnKept fuel phased i (wake true) h held l in_lock_until v lt =
    (wake-TurnKept i fuel h in_lock_until (lock-Waiter i).1 held l v lt).1
act-TurnKept fuel phased i (wake t) h held l in_lock_shared v lt =
    (wake_shared-TurnKept i h in_lock_shared (shared-Waiter i).0 held l v.shape v.stands
      (v.room refl)).0
act-TurnKept fuel phased i (wake false) h held l in_lock_shared_until v lt =
    (wake_shared-TurnKept i h in_lock_shared_until (shared-Waiter i).1 held l v.shape v.stands
      (v.room refl)).0
act-TurnKept fuel phased i (wake true) h held l in_lock_shared_until v lt =
    (wake_shared-TurnKept i h in_lock_shared_until (shared-Waiter i).1 held l v.shape v.stands
      (v.room refl)).1
act-TurnKept fuel phased i _ h held l p v lt = tt
