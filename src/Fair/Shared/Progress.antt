-- ===== src/Fair/Shared/Progress.antt =====
-- include/fair_shared_mutex.hpp: no thread waits at a `shared_timed_mutex` that nobody holds or can take.
use yamc.Common.{
  ℕ, suc, ◌+◌, ◌^◌, ◌<◌, ◌≡◌, ◌≢◌, ◌⊎◌, refl, inl, inr, subst, ◌∙◌, Bool, true, false, List, [],
  ◌∷◌, some, get_elem?, total, total-get_elem?, Option-cases, eq_or_ne, ◌==◌, arith,
}
use yamc.Threads.{System, moved, failed, wake, Reach, settle, silent}
use yamc.Fair.WaitQueue.{Store, queue, request, wq_erase}
use yamc.Fair.Shared.{impl_lock_loop, impl_lock_shared_loop, wq_push_locknode}
use yamc.Fair.Shared.Places.{
  Place, outside, in_lock, in_lock_until, in_lock_shared, in_lock_shared_until, owner, shared_owner,
  granted, granted_shared, act, init,
}
use yamc.Fair.Shared.Line.{Held, free, exclusive, shared}
use yamc.Fair.Shared.Turns.{owns, shares, waits, Stands}
use yamc.Fair.Shared.Runs.{Inv, Reach-Orderly}
use yamc.Fair.Shared.Exclusion.{fair_shared_no_assertion_fails}

module _ {A : Type 0} (f : A → ℕ) where
  -- Some entry has a part of a total that is not 0.
  some_of_total :
      (xs : List A) → 0 < total f xs → (i : ℕ) × (a : A) × (get_elem? xs i ≡ some a) × (0 < f a)
  some_of_total [] pos = absurd (omega (arith, pos))
  some_of_total (x ∷ xs) pos = elim (eq_or_ne (f x) 0) [
    | inl z ↦
        let (i, a, at, there) = some_of_total xs (omega (arith, pos, z)) in (suc i, a, at, there)
    | inr there ↦ (0, x, refl, omega (arith, there))
  ]

-- A wake-up of thread `i` at `p` takes the lock, exclusively or shared.
abbrev pub Takes : ℕ → Bool → ℕ → Store → Place → Type 0
Takes fuel phased i h p =
    (g : Store) × (q : Place) × (act fuel phased i (wake false) h p ≡ moved g q silent)
    × (owns q + shares q ≡ 1)

front_takes :
    (i : ℕ) (h : Store) (w : Place)
    → h.next queue ≡ request i
    → settle granted w (impl_lock_loop i h) ≢ failed
    → (g : Store) × (settle granted w (impl_lock_loop i h) ≡ moved g owner silent)
unfolding impl_lock_loop
front_takes i h w e ok =
    let there : (h.next queue == request i) ≡ true = ground arith in
    elim (Option-cases (wq_push_locknode 0 (wq_erase (request i) h))) [
      | inl out ↦ absurd (ok (rw (there, out) refl))
      | inr (g, run) ↦ (g, rw (there, run) refl)
    ]

marked_takes :
    (i : ℕ) (h : Store) (w : Place)
    → h.status (request i) ≡ 3
    → settle granted_shared w (impl_lock_shared_loop i h) ≢ failed
    → (g : Store) × (settle granted_shared w (impl_lock_shared_loop i h)
        ≡ moved g shared_owner silent)
unfolding impl_lock_shared_loop
marked_takes i h w e ok =
    let there : (h.status (request i) == 3) ≡ true = ground arith in
    elim (Option-cases (wq_push_locknode 1 (wq_erase (request i) h))) [
      | inl out ↦ absurd (ok (rw (there, out) refl))
      | inr (g, run) ↦ (g, rw (there, run) refl)
    ]

marked : {s : ℕ} → (s ≡ 0) ⊎ (s ≡ 3) → (s ≡ 1) ⊎ (s ≡ 3) → s ≡ 3
marked (inr e) f = e
marked (inl e) (inl f) = absurd (omega (arith, e, f))
marked (inl e) (inr f) = f

-- The first request of a queue whose lock is free may take it.
head-Takes :
    (fuel : ℕ) (phased : Bool) (i : ℕ) (h : Store) (l : List ℕ) (p : Place)
    → h.next queue ≡ request i
    → (h.status (request i) ≡ 0) ⊎ (h.status (request i) ≡ 3)
    → Stands i p h.status l
    → waits p ≡ 1
    → act fuel phased i (wake false) h p ≢ failed
    → Takes fuel phased i h p
unfolding act
head-Takes fuel phased i h l in_lock front st s w ok =
    let (g, e) = front_takes i h in_lock front ok in (g, owner, e, refl)
head-Takes fuel phased i h l in_lock_until front st s w ok =
    let (g, e) = front_takes i h in_lock_until front ok in (g, owner, e, refl)
head-Takes fuel phased i h l in_lock_shared front st s w ok =
    let (g, e) = marked_takes i h in_lock_shared (marked st s.1) ok in (g, shared_owner, e, refl)
head-Takes fuel phased i h l in_lock_shared_until front st s w ok =
    let (g, e) = marked_takes i h in_lock_shared_until (marked st s.1) ok in
    (g, shared_owner, e, refl)
head-Takes fuel phased i h l outside front st s w ok = absurd (omega (arith, w))
head-Takes fuel phased i h l owner front st s w ok = absurd (omega (arith, w))
head-Takes fuel phased i h l shared_owner front st s w ok = absurd (omega (arith, w))

abbrev Goes : ℕ → Bool → System Store Place → Type 0
Goes fuel phased s =
    ((j : ℕ) × (q : Place) × (get_elem? s.threads j ≡ some q) × (0 < owns q + shares q))
    ⊎ ((j : ℕ) × (q : Place) × (get_elem? s.threads j ≡ some q)
        × (waits q ≡ 1)
        × Takes fuel phased j s.shared q)

Inv-Goes :
    (n fuel : ℕ) (phased : Bool) (s : System Store Place) (held : Held) (l : List ℕ)
    → Inv n s held l
    → ((j : ℕ) (q : Place)
        → get_elem? s.threads j ≡ some q
        → act fuel phased j (wake false) s.shared q ≢ failed)
    → 0 < total waits s.threads
    → Goes fuel phased s
Inv-Goes n fuel phased s exclusive l v ok some_wait =
    let (j, q, at, holds) = some_of_total owns s.threads (omega (arith, v.counts.owners)) in
    inl (j, q, at, omega (arith, holds))
Inv-Goes n fuel phased s (shared c) l v ok some_wait =
    let (j, q, at, holds) =
      some_of_total shares s.threads (omega (arith, v.counts.sharers, v.shape.lock_node.1)) in
    inl (j, q, at, omega (arith, holds))
Inv-Goes n fuel phased s free [] v ok some_wait =
    absurd (omega (arith, some_wait, v.counts.waiters))
Inv-Goes n fuel phased s free (x ∷ xs) v ok some_wait =
    let (j, q, at, e, w) = v.found x (inl refl) in
    let front : s.shared.next queue ≡ request j = v.shape.queued.0.0.0 ∙ e in
    let status : (s.shared.status (request j) ≡ 0) ⊎ (s.shared.status (request j) ≡ 3) =
      subst (λ c. (s.shared.status c ≡ 0) ⊎ (s.shared.status c ≡ 3)) e
        (elim v.shape.ordered [ inl both ↦ inr both.0 | inr both ↦ inl both.0 ]) in
    inr (
      j,
      q,
      at,
      w,
      head-Takes fuel phased j s.shared (x ∷ xs) q front status (v.stands j q at) w (ok j q at),
    )

-- Fewer than 2 ^ 62 threads, with any scheduling policy, in any interleaving, with waits that time out, and
-- fuel above the number of threads: while a thread waits for the mutex, some thread holds it, or some thread that waits takes it as soon as
-- it wakes up.
pub fair_shared_no_deadlock :
    (n fuel : ℕ) (phased : Bool)
    → n < 2 ^ 62
    → n < fuel
    → {s : System Store Place} → Reach (act fuel phased) (init n) s
    → (i : ℕ) (p : Place) → get_elem? s.threads i ≡ some p
    → waits p ≡ 1
    → ((j : ℕ) × (q : Place) × (get_elem? s.threads j ≡ some q) × (0 < owns q + shares q))
      ⊎ ((j : ℕ) × (q : Place) × (get_elem? s.threads j ≡ some q)
          × (waits q ≡ 1)
          × Takes fuel phased j s.shared q)
fair_shared_no_deadlock n fuel phased few enough {s} r i p at w =
    let (held, l, v) = Reach-Orderly n fuel phased few enough r in
    Inv-Goes n fuel phased s held l v
      (λ j q there.
        fair_shared_no_assertion_fails n fuel phased few enough r j (wake false) q there)
      (omega (arith, total-get_elem? waits s.threads i at, w))
