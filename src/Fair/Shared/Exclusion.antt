-- ===== src/Fair/Shared/Exclusion.antt =====
-- include/fair_shared_mutex.hpp: who may hold a `shared_timed_mutex` together.
use yamc.Common.{
  ℕ, ◌+◌, ◌*◌, ◌^◌, ◌<◌, ◌≡◌, ◌≢◌, ◌⊎◌, refl, inl, inr, subst, Bool, List, some, get_elem?, total,
  total-pair, arith,
}
use yamc.Threads.{System, Action, Turn, failed, Reach}
use yamc.Fair.WaitQueue.{Store, queue, locked}
use yamc.Fair.Shared.Places.{Place, owner, shared_owner, Method, act, init}
use yamc.Fair.Shared.Line.{Held, free, exclusive, shared}
use yamc.Fair.Shared.Hold.{count, front_not_locked}
use yamc.Fair.Shared.Turns.{owns, shares, owned, TurnKept}
use yamc.Fair.Shared.Runs.{Inv, Reach-Orderly, turn-TurnKept}

never_both : (held : Held) → (owned held ≡ 0) ⊎ ((owned held ≡ 1) × (count held ≡ 0))
never_both free = inl refl
never_both exclusive = inr (refl, refl)
never_both (shared c) = inl refl

Kept-not_failed :
    (i : ℕ) (h : Store) (held : Held) (l : List ℕ) (p : Place) (t : Turn Store Place)
    → TurnKept i h held l p t
    → t ≢ failed
Kept-not_failed i h held l p t k e = subst (TurnKept i h held l p) e k

-- What the lock node says of the threads: it is at the front of the queue exactly while somebody holds the
-- lock, with one owner or a number of others.
abbrev pub Noted : Store → ℕ → ℕ → Type 0
Noted h a b =
    ((h.next queue ≢ locked) × (a ≡ 0) × (b ≡ 0))
    ⊎ ((h.next queue ≡ locked) × (h.status locked ≡ 6) × (a ≡ 1) × (b ≡ 0))
    ⊎ ((h.next queue ≡ locked) × (h.status locked ≡ 4 * b + 3) × (a ≡ 0) × (0 < b))

Inv-Noted :
    (n : ℕ) (s : System Store Place) (held : Held) (l : List ℕ)
    → Inv n s held l
    → Noted s.shared (total owns s.threads) (total shares s.threads)
Inv-Noted n s free l v =
    inl (
      front_not_locked s.shared l v.shape.queued v.shape.requests,
      v.counts.owners,
      v.counts.sharers,
    )
Inv-Noted n s exclusive l v =
    inr (inl (v.shape.queued.0.0.0, v.shape.lock_node, v.counts.owners, v.counts.sharers))
Inv-Noted n s (shared c) l v =
    let node = v.shape.lock_node in
    inr (
      inr (
        v.shape.queued.0.0.0,
        omega (arith, node.0, v.counts.sharers),
        v.counts.owners,
        omega (arith, node.1, v.counts.sharers),
      ))

module _ (n fuel : ℕ) (phased : Bool) (few : n < 2 ^ 62) (enough : n < fuel) where
  -- Fewer than 2 ^ 62 threads, with any scheduling policy, in any interleaving, with waits that time out, and
  -- fuel above the number of threads: while a thread owns the mutex exclusively, no other thread holds it, exclusively or shared.
  pub fair_shared_exclusion :
      {s : System Store Place}
      → Reach (act fuel phased) (init n) s
      → (i j : ℕ) → i ≢ j
      → get_elem? s.threads i ≡ some owner
      → (get_elem? s.threads j ≢ some owner) × (get_elem? s.threads j ≢ some shared_owner)
  fair_shared_exclusion {s} r i j ne at =
      let (held, l, v) = Reach-Orderly n fuel phased few enough r in
      let one = λ (q : Place) (there : get_elem? s.threads j ≡ some q).
        total-pair owns s.threads i j at there ne in
      let none = λ (there : get_elem? s.threads j ≡ some shared_owner).
        total-pair shares s.threads i j at there ne in
      (
        λ e. ground (arith, one owner e, v.counts.owners, never_both held),
        λ e.
            ground (
              arith,
              none e,
              one shared_owner e,
              v.counts.sharers,
              v.counts.owners,
              never_both held,
            ),
      )

  -- Fewer than 2 ^ 62 threads, with any scheduling policy, in any interleaving, with waits that time out, and
  -- fuel above the number of threads: `locked_` is at the front of the queue exactly while some thread holds the lock, and
  -- its status is that of one exclusive owner, or counts the threads that hold the lock together.
  pub fair_shared_lock_node :
      {s : System Store Place}
      → Reach (act fuel phased) (init n) s
      → Noted s.shared (total owns s.threads) (total shares s.threads)
  fair_shared_lock_node {s} r =
      let (held, l, v) = Reach-Orderly n fuel phased few enough r in Inv-Noted n s held l v

  -- Fewer than 2 ^ 62 threads, with any scheduling policy, in any interleaving, with waits that time out, and
  -- fuel above the number of threads: no turn of any thread fails an assertion, and none runs out of fuel.
  pub fair_shared_no_assertion_fails :
      {s : System Store Place}
      → Reach (act fuel phased) (init n) s
      → (i : ℕ) (a : Action Method) (p : Place) → get_elem? s.threads i ≡ some p
      → act fuel phased i a s.shared p ≢ failed
  fair_shared_no_assertion_fails {s} r i a p at =
      let (held, l, v) = Reach-Orderly n fuel phased few enough r in
      Kept-not_failed i s.shared held l p (act fuel phased i a s.shared p)
        (turn-TurnKept n fuel phased few enough v i a at)
