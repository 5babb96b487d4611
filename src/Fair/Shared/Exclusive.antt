-- ===== src/Fair/Shared/Exclusive.antt =====
-- include/fair_shared_mutex.hpp: the sections of the exclusive lock, but for what ends it.
use yamc.Common.{
  ℕ, ◌≡◌, ◌≢◌, ◌⊎◌, refl, inl, inr, sym, ap, subst, ◌∙◌, true, false, List, [], ◌∷◌, ◌++◌, ◌==◌,
  eq_or_ne, arith,
}
use yamc.Threads.{returned, waiting, silent, settle, ◌>>=◌}
use yamc.Fair.WaitQueue.{Store, queue, locked, request, wq_erase}
use yamc.Fair.WaitQueue.Chain.{In, Queued}
use yamc.Fair.WaitQueue.Members.{In-erase, not-In-Fresh}
use yamc.Fair.WaitQueue.Push.{wq_empty-nil, wq_empty-cons}
use yamc.Fair.WaitQueue.Remove.{wq_erase-Queued}
use yamc.Fair.Shared.{
  wq_push_locknode, impl_lock, impl_lock_loop, impl_try_lock, impl_try_lockwait_timeout,
}
use yamc.Fair.Shared.Places.{Place, outside, owner, granted}
use yamc.Fair.Shared.Line.{
  Held, free, exclusive, shared, line, Rest, Ordered, Shape, Rest-snoc, Groups-snoc_exclusive,
  Rest-frame,
}
use yamc.Fair.Shared.Hold.{take_exclusive, join, join-status_self, join-Shape, erased-status}
use yamc.Fair.Shared.Turns.{
  Quiet, Quiet-behind_lock, Quiet-still, Stands, Kept, TurnKept, still, Waiter, Exclusively,
}
use yamc.Fair.Shared.Joins.{join-Quiet, join_front, join-Kept}

Ordered-snoc :
    (st : ℕ → ℕ) (held : Held) (l : List ℕ) (p : ℕ)
    → Ordered st held l
    → st p ≡ 0
    → Ordered st held (l ++ p ∷ [])
Ordered-snoc st free l p o e = Groups-snoc_exclusive st l p o e
Ordered-snoc st exclusive l p o e = Rest-snoc st l p o (inl e)
Ordered-snoc st (shared c) l p o e = Groups-snoc_exclusive st l p o e

module _ (i : ℕ) (h : Store) where
  enters :
      Queued h []
      → (impl_lock i h ≡ (wq_push_locknode 0 h >>= λ g. returned g true silent))
        × (impl_try_lock h ≡ (wq_push_locknode 0 h >>= λ g. returned g true silent))
  unfolding impl_lock impl_try_lock
  enters q = (rw (wq_empty-nil h q) refl, rw (wq_empty-nil h q) refl)

  joins :
      (x : ℕ) (xs : List ℕ)
      → Queued h (x ∷ xs)
      → (join (request i) 0 h).next queue ≢ request i
      → (impl_lock i h ≡ waiting (join (request i) 0 h) silent)
        × (impl_try_lock h ≡ returned h false silent)
  unfolding impl_lock impl_lock_loop impl_try_lock
  joins x xs q ne =
      let other : ((join (request i) 0 h).next queue == request i) ≡ false = ground arith in
      (rw (wq_empty-cons h x xs q) (rw other refl), rw (wq_empty-cons h x xs q) refl)

  takes :
      (fuel : ℕ)
      → h.next queue ≡ request i
      → (impl_lock_loop i h
          ≡ (wq_push_locknode 0 (wq_erase (request i) h) >>= λ g. returned g true silent))
        × (impl_try_lockwait_timeout fuel i h
            ≡ (wq_push_locknode 0 (wq_erase (request i) h) >>= λ g. returned g true silent))
  unfolding impl_lock_loop impl_try_lockwait_timeout
  takes fuel e =
      let here : (h.next queue == request i) ≡ true = ground arith in (rw here refl, rw here refl)

  stays_waiting : h.next queue ≢ request i → impl_lock_loop i h ≡ waiting h silent
  unfolding impl_lock_loop
  stays_waiting ne = let other : (h.next queue == request i) ≡ false = ground arith in rw other refl

module _ (i : ℕ) (h : Store) (w : Place) (at : Waiter i Exclusively w) where
  -- `lock` and `try_lock` of a mutex that nobody holds or wants.
  enter-TurnKept :
      Shape h free []
      → TurnKept i h free [] outside (settle granted w (impl_lock i h))
        × TurnKept i h free [] outside (settle granted outside (impl_try_lock h))
  enter-TurnKept v =
      let (g, run, shape, same) = take_exclusive h [] v.queued tt v.requests in
      let kept : Kept i h free [] outside g exclusive [] owner = record {
        shape = shape;
        stays = λ c ne. (λ j. j, λ j. j);
        others = λ c ne j. absurd j;
        mine = λ j. j;
        owning = refl;
        sharing = refl;
        queueing = refl;
      } in
      (
        rw ((enters i h v.queued).0, run) (exclusive, [], kept, inr (λ c ne j. absurd j)),
        rw ((enters i h v.queued).1, run) (exclusive, [], kept, inr (λ c ne j. absurd j)),
      )

  -- The same of one that somebody holds or wants.
  join-TurnKept :
      (held : Held) (l : List ℕ) (x : ℕ) (xs : List ℕ)
      → Shape h held l
      → ¬ In (request i) l
      → line held l ≡ x ∷ xs
      → TurnKept i h held l outside (settle granted w (impl_lock i h))
        × TurnKept i h held l outside (settle granted outside (impl_try_lock h))
  join-TurnKept held l x xs v out e =
      let r = request i in
      let shape : Shape (join r 0 h) held (l ++ r ∷ []) =
        join-Shape h held l r 0 v (omega arith) out
          (λ o. Ordered-snoc (join r 0 h).status held l r o (join-status_self h r 0)) in
      let runs =
        joins i h x xs (subst (Queued h) e v.queued)
          (join_front (join r 0 h) i held l x xs e out shape.queued) in
      (
        rw (runs.0) (
          held,
          l ++ r ∷ [],
          join-Kept i 0 Exclusively h held l w v out at refl shape,
          inr (join-Quiet i 0 h held l x xs e v.queued shape.queued),
        ),
        rw (runs.1) (
          held,
          l,
          still i h held l outside outside v out refl refl refl,
          inr (Quiet-still i h l),
        ),
      )

  pub lock-TurnKept :
      (held : Held) (l : List ℕ)
      → Shape h held l
      → ¬ In (request i) l
      → TurnKept i h held l outside (settle granted w (impl_lock i h))
        × TurnKept i h held l outside (settle granted outside (impl_try_lock h))
  lock-TurnKept free [] v out = enter-TurnKept v
  lock-TurnKept free (x ∷ xs) v out = join-TurnKept free (x ∷ xs) x xs v out refl
  lock-TurnKept exclusive l v out = join-TurnKept exclusive l locked l v out refl
  lock-TurnKept (shared c) l v out = join-TurnKept (shared c) l locked l v out refl

  -- Its request has come to the front.
  pub take-TurnKept :
      (fuel : ℕ) (xs : List ℕ)
      → Shape h free (request i ∷ xs)
      → h.status (request i) ≡ 0
      → TurnKept i h free (request i ∷ xs) w (settle granted w (impl_lock_loop i h))
        × TurnKept i h free
            (request i ∷ xs)
            w
            (settle granted w (impl_try_lockwait_timeout fuel i h))
  take-TurnKept fuel xs v z =
      let r = request i in
      let rest : Rest h.status xs = elim v.ordered [
        | inl both ↦ absurd (omega (arith, both.0))
        | inr both ↦ both.1
      ] in
      let (g, run, shape, same) =
        take_exclusive (wq_erase r h) xs (wq_erase-Queued h r [] xs v.queued)
          (Rest-frame h.status (wq_erase r h).status xs (λ c j. erased-status h r c) rest)
          (λ c j. v.requests c (inr j)) in
      let kept : Kept i h free (r ∷ xs) w g exclusive xs owner = record {
        shape = shape;
        stays = λ c ne. In-erase c r [] xs ne;
        others = λ c ne j. inl (same c (λ e. omega (arith, v.requests c j)) ∙ erased-status h r c);
        mine = not-In-Fresh r xs v.queued.1.1.0;
        owning = omega (arith, at.no_owner);
        sharing = omega (arith, at.no_sharer);
        queueing = omega (arith, at.waiting);
      } in
      let runs = takes i h fuel v.queued.0.0.0 in
      let quiet : Quiet i h (r ∷ xs) g =
        Quiet-behind_lock i h (r ∷ xs) g
          (λ c ne j. same c (λ e. omega (arith, v.requests c j)) ∙ erased-status h r c) v.requests
          shape.queued.0.0.0 in
      (
        rw (runs.0, run) (exclusive, xs, kept, inr quiet),
        rw (runs.1, run) (exclusive, xs, kept, inr quiet),
      )

  pub wait-TurnKept :
      (held : Held) (l : List ℕ)
      → Shape h held l
      → Stands i w h.status l
      → h.next queue ≢ request i
      → TurnKept i h held l w (settle granted w (impl_lock_loop i h))
  wait-TurnKept held l v s ne =
      rw (stays_waiting i h ne)
        (held, l, still i h held l w w v s refl refl refl, inr (Quiet-still i h l))

-- A request that is at the front, or is not.
pub front_is :
    (i : ℕ) (h : Store) (held : Held) (l : List ℕ)
    → Shape h held l
    → In (request i) l
    → (h.next queue ≢ request i)
      ⊎ ((xs : List ℕ) × (held ≡ free) × (l ≡ request i ∷ xs) × (h.next queue ≡ request i))
front_is i h exclusive l v j = inl (λ e. omega (arith, v.queued.0.0.0))
front_is i h (shared c) l v j = inl (λ e. omega (arith, v.queued.0.0.0))
front_is i h free [] v j = absurd j
front_is i h free (x ∷ xs) v j = elim (eq_or_ne x (request i)) [
  | inl e ↦ inr (xs, refl, ap (λ y. y ∷ xs) e, v.queued.0.0.0 ∙ e)
  | inr ne ↦ inl (λ e. ne (sym v.queued.0.0.0 ∙ e))
]
