-- ===== src/Fair/Shared/SharedWaits.antt =====
-- include/fair_shared_mutex.hpp: the sections of the shared lock from a wake-up on.
use yamc.Common.{
  ℕ, suc, ◌^◌, ◌<◌, ◌≡◌, ◌≢◌, refl, inl, inr, sym, subst, ◌∙◌, true, false, List, [], ◌∷◌, ◌++◌,
  length, length-append, arith,
}
use yamc.Threads.{returned, waiting, silent, settle, ◌>>=◌}
use yamc.Fair.WaitQueue.{locked, Store, request, wq_erase}
use yamc.Fair.WaitQueue.Chain.{In, Queued, Distinct-out}
use yamc.Fair.WaitQueue.Members.{In-append, In-erase, In-split, not-In-Fresh}
use yamc.Fair.Shared.{wq_push_locknode, impl_lock_shared_loop, impl_try_lockwait_shared_timeout}
use yamc.Fair.Shared.Places.{Place, outside, shared_owner, granted_shared}
use yamc.Fair.Shared.Line.{Held, free, exclusive, shared, Rest, Shape, Rest-In}
use yamc.Fair.Shared.Hold.{count, more, take_shared, erase-Shape, erased-status}
use yamc.Fair.Shared.Turns.{
  Quiet, Quiet-behind_lock, Quiet-still, Quiet-same_front, Stands, Kept, TurnKept, Waiter,
  Shareably, still,
}
use yamc.Fair.Shared.Release.{Shape-Distinct}
use yamc.Fair.Shared.Sharing.{owned-more, more_front, count-more}

module _ (i : ℕ) (h : Store) where
  takes_shared :
      h.status (request i) ≡ 3
      → (impl_lock_shared_loop i h
          ≡ (wq_push_locknode 1 (wq_erase (request i) h) >>= λ g. returned g true silent))
        × (impl_try_lockwait_shared_timeout i h
            ≡ (wq_push_locknode 1 (wq_erase (request i) h) >>= λ g. returned g true silent))
  unfolding impl_lock_shared_loop impl_try_lockwait_shared_timeout
  takes_shared e = (rw e refl, rw e refl)

  waits_shared :
      h.status (request i) ≡ 1
      → (impl_lock_shared_loop i h ≡ waiting h silent)
        × (impl_try_lockwait_shared_timeout i h ≡ returned (wq_erase (request i) h) false silent)
  unfolding impl_lock_shared_loop impl_try_lockwait_shared_timeout
  waits_shared e = (rw e refl, rw e refl)

kept_front :
    (h g : Store) (i : ℕ) (held : Held) (us ys : List ℕ)
    → Shape h held (us ++ request i ∷ ys)
    → h.status (request i) ≡ 1
    → Shape g held (us ++ ys)
    → (x : ℕ) × (xs xs' : List ℕ) × Queued h (x ∷ xs) × Queued g (x ∷ xs')
kept_front h g i free [] ys v e v' = elim v.ordered [
  | inl both ↦ absurd (omega (arith, both.0, e))
  | inr both ↦ absurd (omega (arith, both.0, e))
]
kept_front h g i free (u ∷ us) ys v e v' = (u, us ++ request i ∷ ys, us ++ ys, v.queued, v'.queued)
kept_front h g i exclusive us ys v e v' =
    (locked, us ++ request i ∷ ys, us ++ ys, v.queued, v'.queued)
kept_front h g i (shared c) us ys v e v' =
    (locked, us ++ request i ∷ ys, us ++ ys, v.queued, v'.queued)

module _ (i : ℕ) (h : Store) (w : Place) (at : Waiter i Shareably w) (held : Held) where
  -- The waits for a shared lock, with the request between `us` and `ys`.
  module _ (us ys : List ℕ) (v : Shape h held (us ++ request i ∷ ys)) where
    abbrev l : List ℕ
    l = us ++ request i ∷ ys

    erased : h.status (request i) ≢ 0 → Shape (wq_erase (request i) h) held (us ++ ys)
    erased ne = erase-Shape h held us (request i) ys v ne

    gone : ¬ In (request i) (us ++ ys)
    gone =
        not-In-Fresh (request i) (us ++ ys)
          (Distinct-out us (request i) ys (Shape-Distinct h held l v))

    shorter : length l ≡ suc (length (us ++ ys))
    shorter = omega (arith, length-append us ys, length-append us (request i ∷ ys))

    take_shared-TurnKept :
        suc (count held) < 2 ^ 62
        → h.status (request i) ≡ 3
        → TurnKept i h held l w (settle granted_shared w (impl_lock_shared_loop i h))
          × TurnKept i h held l w (settle granted_shared w (impl_try_lockwait_shared_timeout i h))
    take_shared-TurnKept room e =
        let r = request i in
        let ne : held ≢ exclusive = λ x.
          let o : Rest h.status l = (subst (λ k. Shape h k l) x v).ordered in
          ground (arith, Rest-In h.status l r o ((In-append r us (r ∷ ys)).1 (inr (inl refl)))) in
        let (g, run, shape, same) =
          take_shared (wq_erase r h) held (us ++ ys) (erased (λ z. omega arith)) ne room in
        let kept : Kept i h held l w g (more held) (us ++ ys) shared_owner = record {
          shape = shape;
          stays = λ c d. In-erase c r us ys d;
          others = λ c d j. inl (same c (λ x. omega (arith, v.requests c j)) ∙ erased-status h r c);
          mine = gone;
          owning = omega (arith, at.no_owner, (owned-more held ne).0, (owned-more held ne).1);
          sharing = omega (arith, at.no_sharer, count-more held ne);
          queueing = omega (arith, at.waiting, shorter);
        } in
        let runs = takes_shared i h e in
        let quiet : Quiet i h l g =
          Quiet-behind_lock i h l g
            (λ c d j. same c (λ x. omega (arith, v.requests c j)) ∙ erased-status h r c) v.requests
            (more_front g held (us ++ ys) shape) in
        (
          rw (runs.0, run) (more held, us ++ ys, kept, inr quiet),
          rw (runs.1, run) (more held, us ++ ys, kept, inr quiet),
        )

    -- A request that has to wait is not the first of a queue whose lock is free.
    erased-Quiet : h.status (request i) ≡ 1 → Quiet i h l (wq_erase (request i) h)
    erased-Quiet e =
        let g = wq_erase (request i) h in
        let (x, xs, xs', q, q') = kept_front h g i held us ys v e (erased (λ z. omega arith)) in
        Quiet-same_front i h l g (λ c d j. erased-status h (request i) c) x xs xs' q q'

    wait_shared-TurnKept :
        h.status (request i) ≡ 1
        → Stands i w h.status l
        → TurnKept i h held l w (settle granted_shared w (impl_lock_shared_loop i h))
          × TurnKept i h held l w (settle granted_shared w (impl_try_lockwait_shared_timeout i h))
    wait_shared-TurnKept e s =
        let r = request i in
        let kept : Kept i h held l w (wq_erase r h) held (us ++ ys) outside = record {
          shape = erased (λ z. omega arith);
          stays = λ c d. In-erase c r us ys d;
          others = λ c d j. inl (erased-status h r c);
          mine = gone;
          owning = omega (arith, at.no_owner);
          sharing = omega (arith, at.no_sharer);
          queueing = omega (arith, at.waiting, shorter);
        } in
        (
          rw ((waits_shared i h e).0)
              (held, l, still i h held l w w v s refl refl refl, inr (Quiet-still i h l)),
          rw ((waits_shared i h e).1) (held, us ++ ys, kept, inr (erased-Quiet e)),
        )

  -- A wake-up in one of them, with a timeout or without.
  pub wake_shared-TurnKept :
      (l : List ℕ)
      → Shape h held l
      → Stands i w h.status l
      → suc (count held) < 2 ^ 62
      → TurnKept i h held l w (settle granted_shared w (impl_lock_shared_loop i h))
        × TurnKept i h held l w (settle granted_shared w (impl_try_lockwait_shared_timeout i h))
  wake_shared-TurnKept l v s room =
      let (there, status) = (at.stand h.status l).0 s in
      let (us, ys, e) = In-split (request i) l there in
      let split = λ (P : List ℕ → Type 0) (x : P (us ++ request i ∷ ys)). subst P (sym e) x in
      let v' = subst (Shape h held) e v in
      let s' = subst (Stands i w h.status) e s in
      split
        (λ k.
          TurnKept i h held k w (settle granted_shared w (impl_lock_shared_loop i h))
          × TurnKept i h held k w (settle granted_shared w (impl_try_lockwait_shared_timeout i h)))
        (elim status [
          | inl one ↦ wait_shared-TurnKept us ys v' one s'
          | inr three ↦ take_shared-TurnKept us ys v' room three
        ])
