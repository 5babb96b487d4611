-- ===== src/Fair/Shared/Lockable.antt =====
-- include/fair_shared_mutex.hpp: when a shared lock may be taken at once.
use yamc.Common.{
  ℕ, ◌≡◌, ◌≢◌, refl, inr, sym, ap, ◌∙◌, true, false, List, [], ◌∷◌, ◌++◌, ◌==◌, arith,
}
use yamc.Fair.WaitQueue.{Store, locked}
use yamc.Fair.WaitQueue.Chain.{In, In-last, Queued, last}
use yamc.Fair.WaitQueue.Push.{wq_empty-nil, wq_empty-cons}
use yamc.Fair.Shared.{masked, wq_shared_lockable}
use yamc.Fair.Shared.Line.{
  Held, free, exclusive, shared, Ordered, Shape, Rest-snoc, Groups-snoc_shared,
}
use yamc.Fair.Shared.Opened.{waits_before}
use yamc.Fair.Shared.Hold.{back_of}

-- The test of `wq_shared_lockable` on a queue that is not empty.
module _ (h : Store) where
  lockable_back :
      (x : ℕ) (xs : List ℕ)
      → Queued h (x ∷ xs)
      → wq_shared_lockable h ≡ (masked (h.status (last x xs)) == 3)
  unfolding wq_shared_lockable
  lockable_back x xs q =
      rw (wq_empty-cons h x xs q) (ap (λ b. masked (h.status b) == 3) (back_of h (x ∷ xs) q))

  pub lockable_empty : Queued h [] → wq_shared_lockable h ≡ true
  unfolding wq_shared_lockable
  lockable_empty q = rw (wq_empty-nil h q) refl

  pub exclusive_bars : (l : List ℕ) → Shape h exclusive l → wq_shared_lockable h ≡ false
  exclusive_bars [] v = lockable_back locked [] v.queued ∙ ap (λ s. masked s == 3) v.lock_node
  exclusive_bars (x ∷ xs) v =
      lockable_back locked (x ∷ xs) v.queued
      ∙ waits_before h.status h.status locked [] x xs v.ordered

  not_lockable : (s : ℕ) → (masked s == 3) ≡ false → s ≢ 3
  not_lockable s e f = ground arith

  -- A shared request that has to wait.
  pub Ordered-wait :
      (held : Held) (l : List ℕ) (p : ℕ) (st : ℕ → ℕ)
      → Shape h held l
      → wq_shared_lockable h ≡ false
      → ((c : ℕ) → In c l → st c ≡ h.status c)
      → st p ≡ 1
      → Ordered st held l
      → Ordered st held (l ++ p ∷ [])
  Ordered-wait exclusive l p st v bars same e o = Rest-snoc st l p o (inr e)
  Ordered-wait free [] p st v bars same e o = absurd (cc (lockable_empty v.queued, bars))
  Ordered-wait free (x ∷ xs) p st v bars same e o =
      Groups-snoc_shared st x xs p o
        (λ f.
          not_lockable (h.status (last x xs)) (sym (lockable_back x xs v.queued) ∙ bars)
            (sym (same (last x xs) (In-last x xs)) ∙ f))
        e
  Ordered-wait (shared c) [] p st v bars same e o =
      let opens : (masked (h.status locked) == 3) ≡ true = ground (arith, v.lock_node.0) in
      absurd (cc (lockable_back locked [] v.queued, bars, opens))
  Ordered-wait (shared c) (x ∷ xs) p st v bars same e o =
      Groups-snoc_shared st x xs p o
        (λ f.
          not_lockable (h.status (last x xs)) (sym (lockable_back locked (x ∷ xs) v.queued) ∙ bars)
            (sym (same (last x xs) (In-last x xs)) ∙ f))
        e
