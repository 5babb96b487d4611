-- ===== src/Fair/Shared/Release.antt =====
-- include/fair_shared_mutex.hpp: the turn that ends an exclusive lock.
use yamc.Common.{
  ℕ, ◌<◌, ◌≡◌, ◌↔◌, refl, inl, inr, ◌∙◌, Bool, true, false, List, [], ◌∷◌, ◌++◌, length, arith,
}
use yamc.Threads.{settle}
use yamc.Fair.WaitQueue.{Store, sentinel, request}
use yamc.Fair.WaitQueue.Chain.{In, Fresh, Distinct}
use yamc.Fair.WaitQueue.Members.{not-In-Fresh}
use yamc.Fair.Shared.{impl_unlock}
use yamc.Fair.Shared.Phase.{Waiting, shareds, exclusives}
use yamc.Fair.Shared.Group.{group, Fresh-group}
use yamc.Fair.Shared.Unlock.{next_order, opened, unlock_opens_next}
use yamc.Fair.Shared.Places.{outside, owner}
use yamc.Fair.Shared.Line.{Held, free, exclusive, shared, Rest, Groups, Shape, Rest-frame}
use yamc.Fair.Shared.Opened.{
  In-or_Fresh, group-In, group-Groups, shareds-In, In-sorted, length-sorted, sorted-Groups,
  opened_change,
}
use yamc.Fair.Shared.Hold.{not_there}
use yamc.Fair.Shared.Turns.{TurnKept}

pub Rest-Waiting : (h : Store) (xs : List ℕ) → Rest h.status xs → Waiting h.status h xs
Rest-Waiting h [] r = tt
Rest-Waiting h (x ∷ xs) r = (refl, r.0, Rest-Waiting h xs r.1)

pub Shape-Distinct : (h : Store) (held : Held) (l : List ℕ) → Shape h held l → Distinct l
Shape-Distinct h free l v = v.queued.1.1
Shape-Distinct h exclusive l v = v.queued.1.1.1
Shape-Distinct h (shared c) l v = v.queued.1.1.1

module _ (st : ℕ → ℕ) where
  pub group_among : (ys : List ℕ) (c : ℕ) → In c (group st ys) → In c ys
  group_among ys c j = elim (In-or_Fresh c ys) [
    | inl k ↦ k
    | inr f ↦ absurd (not-In-Fresh c (group st ys) (Fresh-group st c ys f) j)
  ]

  -- What an unlock leaves, as a list, whatever the fairness.
  module _ (x : ℕ) (xs : List ℕ) where
    order_shared :
        st x ≡ 1
        → (next_order true st (x ∷ xs) ≡ shareds st (x ∷ xs) ++ exclusives st (x ∷ xs))
          × (opened true st (x ∷ xs) ≡ shareds st (x ∷ xs))
    order_shared e = (rw e refl, rw e refl)

    order_exclusive :
        st x ≡ 0 → (next_order true st (x ∷ xs) ≡ x ∷ xs) × (opened true st (x ∷ xs) ≡ [])
    order_exclusive e = (rw e refl, rw e refl)

  -- The nodes stay, those that are opened were waiting for a shared lock, and they stand in front.
  abbrev Opening : (ℕ → ℕ) → List ℕ → List ℕ → List ℕ → Type 0
  Opening st' l order os =
      ((c : ℕ) → In c l ↔ In c order)
      × (length order ≡ length l)
      × ((c : ℕ) → In c os → st c ≡ 1)
      × (((c : ℕ) → In c os → st' c ≡ 3)
          → ((c : ℕ) → In c l → Fresh c os → st' c ≡ st c)
          → Groups st' order)

  opening :
      (phased : Bool) (st' : ℕ → ℕ) (l : List ℕ)
      → Rest st l
      → Distinct l
      → Opening st' l (next_order phased st l) (opened phased st l)
  opening phased st' [] r d = ((λ c. (λ j. j, λ j. j)), refl, (λ c j. absurd j), λ m o. tt)
  opening false st' (x ∷ xs) r d = (
    (λ c. (λ j. j, λ j. j)),
    refl,
    group-In st (x ∷ xs),
    λ m o. group-Groups st st' (x ∷ xs) r d m o,
  )
  opening true st' (x ∷ xs) r d = elim r.0 [
    | inl e ↦
        let (order, os) = order_exclusive x xs e in
        rw (order) (
          rw os (
            (λ c. (λ j. j, λ j. j)),
            refl,
            (λ c j. absurd j),
            λ m o. inr (o x (inl refl) tt ∙ e, Rest-frame st st' xs (λ c j. o c (inr j) tt) r.1),
          ))
    | inr e ↦
        let (order, os) = order_shared x xs e in
        rw (order) (
          rw os (
            (λ c. In-sorted st (x ∷ xs) c r),
            length-sorted st (x ∷ xs) r,
            (λ c j. (shareds-In st (x ∷ xs) c r j).0),
            λ m o. sorted-Groups st st' (x ∷ xs) r m o,
          ))
  ]

pub unlock-TurnKept :
    (i fuel : ℕ) (phased : Bool) (h : Store) (l : List ℕ)
    → Shape h exclusive l
    → ¬ In (request i) l
    → length l < fuel
    → TurnKept i h exclusive l owner (settle (λ _. outside) owner (impl_unlock fuel phased h))
unlock-TurnKept i fuel phased h l v out lt =
    let (g, run, (queued, marked, others)) =
      unlock_opens_next phased h l fuel v.queued (rw (v.lock_node) refl)
        (not_there sentinel l (omega arith) v.requests) (Rest-Waiting h l v.ordered) lt in
    let same = λ (c : ℕ) (j : In c l) (f : Fresh c (opened phased h.status l)).
      others c (λ e. omega (arith, v.requests c j)) (λ e. omega (arith, v.requests c j)) f in
    let (members, size, one, groups) =
      opening h.status phased g.status l v.ordered (Shape-Distinct h exclusive l v) in
    rw run (
      free,
      next_order phased h.status l,
      record {
        shape = record {
          queued = queued;
          lock_node = tt;
          ordered = groups marked same;
          requests = λ c j. v.requests c ((members c).1 j);
        };
        stays = λ c ne. members c;
        others = λ c ne j.
            opened_change h.status g.status (opened phased h.status l) one marked c (same c j);
        mine = λ j. out ((members (request i)).1 j);
        owning = refl;
        sharing = refl;
        queueing = omega (arith, size);
      },
      inl refl,
    )
