-- ===== src/Checked/Shared/Turns.antt =====
-- include/checked_shared_mutex.hpp: what a turn of one thread at one of the mutexes leaves of all of them.
use yamc.Common.{
  eq_or_ne, ℕ, ◌+◌, ◌≡◌, ◌≢◌, refl, true, false, ◌⊎◌, inl, inr, if◌then◌else◌, ◌==◌, arith, subst,
  sym,
}
use yamc.Threads.{
  Outcome, returned, waiting, aborted, Turn, moved, refused, failed, settle, Action, call, wake,
}
use yamc.Fair.WaitQueue.Chain.{In}
use yamc.Validator.{Validator}
use yamc.Checked.{Answer, done, thrown, Error, no_thread, tid}
use yamc.Checked.Shared.{Shared}
use yamc.Checked.Shared.Places.{
  Mutexes, load, save, at, Place, outside, in_lock, in_lock_shared, in_lock_until,
  in_lock_shared_until, woken, woken_shared, reported, reported_shared, after, Method, locks,
  try_locks, unlocks, locks_shared, try_locks_shared, unlocks_shared, try_locks_until,
  try_locks_shared_until,
}
use yamc.Checked.Shared.Ends.{Held, NoAnswer, Grows, Ends}

-- 1 for a thread that the policy of mutex `k` counts as a waiting writer, for its last call of a member.
abbrev pub waits : ℕ → Place → ℕ
waits k (in_lock j) = if j == k then 1 else 0
waits k (in_lock_until j) = if j == k then 1 else 0
waits k (woken j) = if j == k then 1 else 0
waits k (reported j) = if j == k then 1 else 0
waits k _ = 0

-- 1 for a thread whose `lock` of mutex `k` has thrown `deadlock`: whatever it does next, it stays counted.
abbrev pub leaves : ℕ → Place → ℕ
leaves k (reported j) = if j == k then 1 else 0
leaves k _ = 0

-- 1 for a thread in a wait that the policy counts.
abbrev pub stays : ℕ → Place → ℕ
stays k (reported j) = 0
stays k p = waits k p

-- The mutex at which a turn is.
abbrev pub called_at : Method → ℕ
called_at (locks k) = k
called_at (try_locks k) = k
called_at (unlocks k) = k
called_at (locks_shared k) = k
called_at (try_locks_shared k) = k
called_at (unlocks_shared k) = k
called_at (try_locks_until k) = k
called_at (try_locks_shared_until k) = k

abbrev pub waits_at : Place → ℕ
waits_at (in_lock k) = k
waits_at (in_lock_shared k) = k
waits_at (in_lock_until k) = k
waits_at (in_lock_shared_until k) = k
waits_at (woken k) = k
waits_at (woken_shared k) = k
waits_at _ = no_thread

abbrev pub target : Action Method → Place → ℕ
target (call m) p = called_at m
target (wake _) p = waits_at p

-- A thread that waits for a mutex does not share it.
abbrev pub Fits : {State V : Type 0} → ℕ → Place → Mutexes State V → Type 0
Fits i (in_lock k) s = In (tid i) (s.s_owners k) → ⊥
Fits i (in_lock_shared k) s = In (tid i) (s.s_owners k) → ⊥
Fits i (in_lock_until k) s = In (tid i) (s.s_owners k) → ⊥
Fits i (in_lock_shared_until k) s = In (tid i) (s.s_owners k) → ⊥
Fits i (woken k) s = In (tid i) (s.s_owners k) → ⊥
Fits i (woken_shared k) s = In (tid i) (s.s_owners k) → ⊥
Fits i _ s = Unit {0}

module _ {State V : Type 0} (i j : ℕ) (s t : Mutexes State V) (ne : j ≢ i)
    (grows : (k x : ℕ) → In x (t.s_owners k) → In x (s.s_owners k) ⊎ (x ≡ tid i)) where
  apart : (k : ℕ) → (In (tid j) (s.s_owners k) → ⊥) → In (tid j) (t.s_owners k) → ⊥
  apart k f here = elim (grows k (tid j) here) [ inl l ↦ f l | inr e ↦ ne (omega arith) ]

  pub Fits-other : (q : Place) → Fits j q s → Fits j q t
  Fits-other (in_lock k) f = apart k f
  Fits-other (in_lock_shared k) f = apart k f
  Fits-other (in_lock_until k) f = apart k f
  Fits-other (in_lock_shared_until k) f = apart k f
  Fits-other (woken k) f = apart k f
  Fits-other (woken_shared k) f = apart k f
  Fits-other outside f = tt
  Fits-other (reported k) f = tt
  Fits-other (reported_shared k) f = tt

module _ {State V : Type 0} (Rep : State → ℕ → ℕ → ℕ → Type 0) (W : Validator V) (n : ℕ) where
  -- A turn of thread `i` at mutex `c`, where `o k` of the other threads count as writers that wait for mutex `k`.
  abbrev pub Kept : ℕ → (ℕ → ℕ) → ℕ → Mutexes State V → Turn (Mutexes State V) Place → Type 0
  Kept c o i s (moved t p _) =
      ((k : ℕ) → Held Rep n (o k + waits k p) (load k t))
      × Fits i p t
      × ((k x : ℕ) → In x (t.s_owners k) → In x (s.s_owners k) ⊎ (x ≡ tid i))
  Kept c o i s refused = Unit {0}
  Kept c o i s failed = NoAnswer Rep n W c i s.table

  module _ (o : ℕ → ℕ) (i k : ℕ) (s : Mutexes State V) (p : Place)
      (off : (j : ℕ) → j ≢ k → stays j p ≡ 0)
      (old : (j : ℕ) → Held Rep n (o j + stays j p) (load j s)) where
    saved :
        (m : Shared State V) (q : Place)
        → ((j : ℕ) → j ≢ k → waits j q ≡ 0)
        → Held Rep n (o k + waits k q) m
        → (j : ℕ) → Held Rep n (o j + waits j q) (load j (save k s m))
    saved m q off' h j = elim (eq_or_ne j k) [
      | inl e ↦
          let self : (k == k) ≡ true = ground arith in
          subst (λ x. Held Rep n (o x + waits x q) (load x (save k s m))) (sym e) (rw self h)
      | inr ne ↦
          let other : (k == j) ≡ false = ground arith in
          rw other
            (subst (λ x. Held Rep n x (load j s)) (omega (arith, off j ne, off' j ne)) (old j))
    ]

    grown :
        (m : Shared State V)
        → Grows Rep n i (s.s_owners k) m.s_owner
        → (j x : ℕ) → In x ((save k s m).s_owners j)
        → In x (s.s_owners j) ⊎ (x ≡ tid i)
    grown m g j x = elim (eq_or_ne j k) [
      | inl e ↦
          let self : (k == k) ≡ true = ground arith in
          subst (λ y. In x ((save k s m).s_owners y) → In x (s.s_owners y) ⊎ (x ≡ tid i)) (sym e)
            (rw self (g x))
      | inr ne ↦ let other : (k == j) ≡ false = ground arith in rw other (λ y. inl y)
    ]

    -- A section that ends, or that has thrown `deadlock` and leaves the thread at `q`.
    ended :
        (m : Shared State V) (q : Place)
        → ((j : ℕ) → j ≢ k → waits j q ≡ 0)
        → Fits i q (save k s m)
        → Held Rep n (o k + waits k q) m
        → Grows Rep n i (s.s_owners k) m.s_owner
        → ((j : ℕ) → Held Rep n (o j + waits j q) (load j (save k s m)))
          × Fits i q (save k s m)
          × ((j x : ℕ) → In x ((save k s m).s_owners j) → In x (s.s_owners j) ⊎ (x ≡ tid i))
    ended m q off' f h g = (saved m q off' h, f, grown m g)

    -- A section at mutex `k`, which leaves the thread at `r` after `deadlock` and at `w` in a wait.
    pub lifted :
        (r w : Place)
        → ((j : ℕ) → j ≢ k → waits j r ≡ 0)
        → ((j : ℕ) → j ≢ k → waits j w ≡ 0)
        → ((t : Mutexes State V) → Fits i r t)
        → ((t : Mutexes State V) → (In (tid i) (t.s_owners k) → ⊥) → Fits i w t)
        → (u : Outcome (Shared State V) Answer)
        → Ends Rep n
            (NoAnswer Rep n W k i s.table)
            i
            (s.s_owners k)
            (o k + 0)
            (o k + waits k r)
            (o k + waits k w)
            u
        → Kept k o i s (settle (after r) w (at k s u))
    lifted r w off_r off_w fr fw (returned m (done b) _) (h, g) =
        ended m outside (λ j ne. refl) tt h g
    lifted r w off_r off_w fr fw (returned m (thrown Error.recursive_lock) _) (h, g) =
        ended m outside (λ j ne. refl) tt h g
    lifted r w off_r off_w fr fw (returned m (thrown Error.abandoned_mutex) _) (h, g) =
        ended m outside (λ j ne. refl) tt h g
    lifted r w off_r off_w fr fw (returned m (thrown Error.invalid_unlock) _) (h, g) =
        ended m outside (λ j ne. refl) tt h g
    lifted r w off_r off_w fr fw (returned m (thrown Error.deadlock) _) (h, g) =
        ended m r off_r (fr (save k s m)) h g
    lifted r w off_r off_w fr fw (waiting m _) (h, e, new) =
        let self : (k == k) ≡ true = ground arith in
        ended m w off_w (fw (save k s m) (rw self (λ l. new (subst (In (tid i)) e l)))) h
          (λ x l. inl (subst (In x) e l))
    lifted r w off_r off_w fr fw aborted h = h
