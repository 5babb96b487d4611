-- ===== src/Fair/Shared/Sharing.antt =====
-- include/fair_shared_mutex.hpp: the sections of the shared lock from a call on.
use yamc.Common.{
  ℕ, suc, ◌^◌, ◌<◌, ◌≡◌, ◌≢◌, refl, inl, inr, ap, subst, ◌∙◌, true, false, List, [], ◌∷◌, ◌++◌,
  ◌==◌, Bool-cases, arith,
}
use yamc.Threads.{returned, waiting, silent, settle, ◌>>=◌}
use yamc.Fair.WaitQueue.{queue, locked, Store, request}
use yamc.Fair.WaitQueue.Chain.{In, Queued}
use yamc.Fair.Shared.{
  wq_shared_lockable, wq_push_locknode, impl_lock_shared, impl_lock_shared_loop,
  impl_try_lock_shared,
}
use yamc.Fair.Shared.Places.{Place, outside, shared_owner, granted_shared}
use yamc.Fair.Shared.Line.{line, Held, free, exclusive, shared, Shape}
use yamc.Fair.Shared.Hold.{
  count, more, take_shared, join, join-status, join-status_self, join-Shape,
}
use yamc.Fair.Shared.Turns.{
  Quiet, Quiet-behind_lock, Quiet-still, owned, Kept, TurnKept, Waiter, Shareably, still,
}
use yamc.Fair.Shared.Joins.{front_cases, join-Quiet, join-Kept}
use yamc.Fair.Shared.Lockable.{lockable_empty, exclusive_bars, Ordered-wait}

module _ (i : ℕ) (h : Store) where
  enters_shared :
      wq_shared_lockable h ≡ true
      → (impl_lock_shared i h ≡ (wq_push_locknode 1 h >>= λ g. returned g true silent))
        × (impl_try_lock_shared h ≡ (wq_push_locknode 1 h >>= λ g. returned g true silent))
  unfolding impl_lock_shared impl_try_lock_shared
  enters_shared e = (rw e refl, rw e refl)

  joins_shared :
      wq_shared_lockable h ≡ false
      → (impl_lock_shared i h ≡ waiting (join (request i) 1 h) silent)
        × (impl_try_lock_shared h ≡ returned h false silent)
  unfolding impl_lock_shared impl_lock_shared_loop impl_try_lock_shared
  joins_shared e =
      let waits : ((join (request i) 1 h).status (request i) == 3) ≡ false =
        rw (join-status_self h (request i) 1) refl in
      (rw e (rw waits refl), rw e refl)

pub owned-more : (held : Held) → held ≢ exclusive → (owned (more held) ≡ 0) × (owned held ≡ 0)
owned-more free ne = (refl, refl)
owned-more exclusive ne = absurd (ne refl)
owned-more (shared c) ne = (refl, refl)

pub more_front :
    (g : Store) (held : Held) (l : List ℕ) → Shape g (more held) l → g.next queue ≡ locked
more_front g free l v = v.queued.0.0.0
more_front g exclusive l v = v.queued.0.0.0
more_front g (shared c) l v = v.queued.0.0.0

pub count-more : (held : Held) → held ≢ exclusive → count (more held) ≡ suc (count held)
count-more free ne = refl
count-more exclusive ne = absurd (ne refl)
count-more (shared c) ne = refl

module _ (i : ℕ) (h : Store) (w : Place) (at : Waiter i Shareably w) (held : Held) where
  -- `lock_shared` and `try_lock_shared`.
  module _ (l : List ℕ) (v : Shape h held l) (out : ¬ In (request i) l) where
    enter_shared-TurnKept :
        suc (count held) < 2 ^ 62
        → wq_shared_lockable h ≡ true
        → TurnKept i h held l outside (settle granted_shared w (impl_lock_shared i h))
          × TurnKept i h held l outside (settle granted_shared outside (impl_try_lock_shared h))
    enter_shared-TurnKept room opens =
        let ne : held ≢ exclusive =
          λ e. cc (opens, exclusive_bars h l (subst (λ k. Shape h k l) e v)) in
        let (g, run, shape, same) = take_shared h held l v ne room in
        let kept : Kept i h held l outside g (more held) l shared_owner = record {
          shape = shape;
          stays = λ c d. (λ j. j, λ j. j);
          others = λ c d j. inl (same c (λ e. omega (arith, v.requests c j)));
          mine = out;
          owning = omega (arith, (owned-more held ne).0, (owned-more held ne).1);
          sharing = omega (arith, count-more held ne);
          queueing = refl;
        } in
        let quiet : Quiet i h l g =
          Quiet-behind_lock i h l g (λ c d j. same c (λ e. omega (arith, v.requests c j)))
            v.requests (more_front g held l shape) in
        (
          rw ((enters_shared i h opens).0, run) (more held, l, kept, inr quiet),
          rw ((enters_shared i h opens).1, run) (more held, l, kept, inr quiet),
        )

    join_shared-TurnKept :
        wq_shared_lockable h ≡ false
        → TurnKept i h held l outside (settle granted_shared w (impl_lock_shared i h))
          × TurnKept i h held l outside (settle granted_shared outside (impl_try_lock_shared h))
    join_shared-TurnKept bars =
        let r = request i in
        let shape : Shape (join r 1 h) held (l ++ r ∷ []) =
          join-Shape h held l r 1 v (omega arith) out (λ o.
            Ordered-wait h held l r (join r 1 h).status v bars
              (λ c j. join-status h r 1 c (λ e. out (subst (λ d. In d l) e j)))
              (join-status_self h r 1) o) in
        let runs = joins_shared i h bars in
        let quiet : Quiet i h l (join r 1 h) = elim (front_cases held l) [
          | inl none ↦ absurd (
              cc (
                bars,
                lockable_empty h (
                    subst (Queued h) (ap (line held) none.1 ∙ ap (λ k. line k []) none.0) v.queued),
              ))
          | inr (x, xs, e) ↦ join-Quiet i 1 h held l x xs e v.queued shape.queued
        ] in
        (
          rw (runs.0) (
            held,
            l ++ r ∷ [],
            join-Kept i 1 Shareably h held l w v out at (inl refl) shape,
            inr quiet,
          ),
          rw (runs.1) (
            held,
            l,
            still i h held l outside outside v out refl refl refl,
            inr (Quiet-still i h l),
          ),
        )

    pub lock_shared-TurnKept :
        suc (count held) < 2 ^ 62
        → TurnKept i h held l outside (settle granted_shared w (impl_lock_shared i h))
          × TurnKept i h held l outside (settle granted_shared outside (impl_try_lock_shared h))
    lock_shared-TurnKept room = elim (Bool-cases (wq_shared_lockable h)) [
      | inl opens ↦ enter_shared-TurnKept room opens
      | inr bars ↦ join_shared-TurnKept bars
    ]
