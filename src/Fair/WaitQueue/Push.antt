-- ===== src/Fair/WaitQueue/Push.antt =====
-- include/fair_mutex.hpp, include/fair_shared_mutex.hpp: adding a node at either end of the wait queue,
-- and the test for an empty one, are the same on the store as on a list.
use mathlib.Core.List.{append_assoc}
use yamc.Common.{sym, false, true, ℕ, ◌≡◌, ◌≢◌, List, [], ◌∷◌, ◌++◌, arith}
use yamc.Fair.WaitQueue.{Store, queue, wq_empty, wq_push_front, wq_push_back}
use yamc.Fair.WaitQueue.Chain.{
  Chain-tail, In-last, Distinct-snoc, Links, Chain, Fresh, Queued, last, Chain-append, Chain-frame,
  Chain-right, Chain-left, sources-ne-last, In-sources, Fresh-ne,
}

module _ (h : Store) (p : ℕ) (xs : List ℕ) (q : Queued h xs) (new : Fresh p (queue ∷ xs)) where
  -- The back of the queue, or `queue_` itself.
  back-Links : Links h (last queue xs) queue
  back-Links = (Chain-right h queue xs (queue ∷ []) q.0).0

  wq_push_back-Chain : Chain (wq_push_back p h) queue xs
  unfolding wq_push_back
  wq_push_back-Chain =
      Chain-frame h (wq_push_back p h) queue xs
        (λ c i. ground (
          arith,
          back-Links,
          sources-ne-last queue xs q.1 i,
          Fresh-ne p (queue ∷ xs) new (In-sources queue xs i),
        ))
        (λ c i. ground (arith, Fresh-ne queue xs q.1.0 i, Fresh-ne p xs new.1 i))
        (Chain-left h queue xs (queue ∷ []) q.0)

  last_ne : last queue xs ≢ p
  last_ne = Fresh-ne p (queue ∷ xs) new (In-last queue xs)

  wq_push_back-Links : Links (wq_push_back p h) (last queue xs) p × Links (wq_push_back p h) p queue
  unfolding wq_push_back
  wq_push_back-Links = ground (arith, back-Links, last_ne, new.0)

  -- `wq_push_back` adds a node at the end.
  pub wq_push_back-Queued : Queued (wq_push_back p h) (xs ++ p ∷ [])
  wq_push_back-Queued = (
    rw append_assoc (
        Chain-append (wq_push_back p h) queue xs (p ∷ queue ∷ []) wq_push_back-Chain
          (wq_push_back-Links.0, (wq_push_back-Links.1, tt))),
    Distinct-snoc p (queue ∷ xs) q.1 new,
  )

module _ (h : Store) where
  -- The test for an empty queue.
  pub wq_empty-nil : Queued h [] → wq_empty h ≡ true
  unfolding wq_empty
  wq_empty-nil q = ground arith

  pub wq_empty-cons : (x : ℕ) (xs : List ℕ) → Queued h (x ∷ xs) → wq_empty h ≡ false
  unfolding wq_empty
  wq_empty-cons x xs q = ground arith

  module _ (p : ℕ) where
    -- `wq_push_front` adds a node at the front.
    pub wq_push_front-Queued :
        (xs : List ℕ) → Queued h xs → Fresh p (queue ∷ xs) → Queued (wq_push_front p h) (p ∷ xs)
    unfolding wq_push_front
    wq_push_front-Queued [] q new = (ground arith, ground arith)
    wq_push_front-Queued (x ∷ xs) q new = (
      (
        ground arith,
        (
          ground arith,
          Chain-tail h (wq_push_front p h) x xs
              (λ c i. ground (arith, Fresh-ne queue (x ∷ xs) q.1.0 i, Fresh-ne p (x ∷ xs) new.1 i))
              (λ c i. ground (arith, Fresh-ne x xs q.1.1.0 i, Fresh-ne p xs new.1.1 i))
              (ground arith) q.0.1,
        ),
      ),
      (((λ e. new.0 (sym e)), q.1.0), (new.1, q.1.1)),
    )
