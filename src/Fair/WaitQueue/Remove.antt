-- ===== src/Fair/WaitQueue/Remove.antt =====
-- include/fair_mutex.hpp, include/fair_shared_mutex.hpp: taking a node out of the wait queue, or
-- putting another in the place of its front, is the same on the store as on a list.
use mathlib.Core.List.{append_assoc}
use yamc.Common.{inl, some, sym, ℕ, ◌≡◌, ◌≢◌, refl, List, [], ◌∷◌, ◌++◌, arith}
use yamc.Fair.WaitQueue.{replace_front, Store, queue, wq_erase, wq_pop_front, wq_replace_front}
use yamc.Fair.WaitQueue.Chain.{
  Distinct-right, Distinct-apart, Distinct-erase, Distinct-left, Chain-tail, In, In-last, Links,
  Chain, Fresh, Distinct, Queued, last, Chain-append, Chain-frame, Chain-right, Chain-left,
  sources-ne-last, Fresh-ne,
}

module _ (h : Store) where
  module _ (p : ℕ) where
    -- `wq_erase` takes a node out, wherever it stands.
    erase_front :
        (us : List ℕ) (n : ℕ)
        → Chain h queue us
        → Distinct (queue ∷ us)
        → h.next p ≡ n
        → h.prev p ≡ last queue us
        → ((c : ℕ) → In c us → c ≢ n)
        → p ≢ n
        → Chain (wq_erase p h) queue us × Links (wq_erase p h) (last queue us) n
    unfolding wq_erase
    erase_front us n c d en ep apart ne = (
      Chain-frame h (wq_erase p h) queue us (λ e i. ground (arith, sources-ne-last queue us d i))
          (λ e i. ground (arith, apart e i)) c,
      ground arith,
    )

    erase_tail :
        (r y : ℕ) (ys : List ℕ)
        → h.next p ≡ y
        → h.prev p ≡ r
        → ((c : ℕ) → In c (y ∷ ys) → c ≢ r)
        → Fresh y ys
        → p ≢ y
        → queue ≢ y
        → Chain h y (ys ++ queue ∷ [])
        → Chain (wq_erase p h) y (ys ++ queue ∷ [])
    unfolding wq_erase
    erase_tail r y ys en ep apart new ne nq c =
        Chain-tail h (wq_erase p h) y ys (λ d i. ground (arith, apart d i))
          (λ d i. ground (arith, Fresh-ne y ys new i)) (ground arith) c

    -- The queue taken apart at a node.
    split :
        (us ys : List ℕ)
        → Queued h (us ++ p ∷ ys)
        → Chain h queue us × Links h (last queue us) p × Chain h p (ys ++ queue ∷ [])
    split us ys q =
        let c : Chain h queue (us ++ ((p ∷ ys) ++ queue ∷ [])) = rw (← append_assoc) q.0 in
        let r = Chain-right h queue us ((p ∷ ys) ++ queue ∷ []) c in
        (Chain-left h queue us ((p ∷ ys) ++ queue ∷ []) c, r.0, r.1)

    pub wq_erase-Queued :
        (us ys : List ℕ) → Queued h (us ++ p ∷ ys) → Queued (wq_erase p h) (us ++ ys)
    wq_erase-Queued us [] q =
        let (c, l, r) = split us [] q in
        let (front, joint) =
          erase_front us queue c (Distinct-left (queue ∷ us) (p ∷ []) q.1) r.0.0 l.1
            (λ e i. Fresh-ne queue us (Distinct-left (queue ∷ us) (p ∷ []) q.1).0 i)
            (λ e. Distinct-apart (queue ∷ us) (p ∷ []) queue p q.1 (inl refl) (inl refl) (sym e)) in
        (
          rw append_assoc (Chain-append (wq_erase p h) queue us (queue ∷ []) front (joint, tt)),
          Distinct-erase (queue ∷ us) p [] q.1,
        )
    wq_erase-Queued us (y ∷ ys) q =
        let (c, l, r) = split us (y ∷ ys) q in
        let d = Distinct-erase (queue ∷ us) p (y ∷ ys) q.1 in
        let ne = (Distinct-right us (p ∷ y ∷ ys) q.1.1).0.0 in
        let apart = λ (e : ℕ) (i : In e (y ∷ ys)).
          Distinct-apart (queue ∷ us) (y ∷ ys) (last queue us) e d (In-last queue us) i in
        let (front, joint) =
          erase_front us y c (Distinct-left (queue ∷ us) (y ∷ ys) d) r.0.0 l.1
            (λ e i. Distinct-apart us (y ∷ ys) e y d.1 i (inl refl)) ne in
        let tail =
          erase_tail (last queue us) y ys r.0.0 l.1 (λ e i f. apart e i (sym f))
            (Distinct-right us (y ∷ ys) d.1).0 ne
            (Distinct-apart (queue ∷ us) (y ∷ ys) queue y d (inl refl) (inl refl)) r.1 in
        (
          rw append_assoc
              (Chain-append (wq_erase p h) queue us ((y ∷ ys) ++ queue ∷ []) front (joint, tail)),
          d,
        )

    -- `wq_replace_front` puts a node in the place of the front one.
    pub replace_front-Queued :
        (x : ℕ) (xs : List ℕ)
        → Queued h (x ∷ xs)
        → Fresh p (queue ∷ x ∷ xs)
        → Queued (replace_front p h) (p ∷ xs)
    unfolding replace_front
    replace_front-Queued x [] q new = (ground arith, ground arith)
    replace_front-Queued x (y ∷ ys) q new = (
      (
        ground arith,
        (
          ground arith,
          Chain-tail h (replace_front p h) y ys
              (λ c i.
                ground (arith, Fresh-ne queue (y ∷ ys) q.1.0.1 i, Fresh-ne p (y ∷ ys) new.1.1 i))
              (λ c i. ground (arith, Fresh-ne y ys q.1.1.1.0 i, Fresh-ne p ys new.1.1.1 i))
              (ground arith) q.0.1.1,
        ),
      ),
      (((λ e. new.0 (sym e)), q.1.0.1), (new.1.1, q.1.1.1)),
    )

    -- The assertion of `wq_replace_front` holds.
    pub wq_replace_front-Queued :
        (x : ℕ) (xs : List ℕ)
        → Queued h (x ∷ xs)
        → Fresh p (queue ∷ x ∷ xs)
        → wq_replace_front p h ≡ some (replace_front p h)
    unfolding wq_replace_front
    wq_replace_front-Queued x xs q new = ground arith

  pub wq_pop_front-Queued : (x : ℕ) (xs : List ℕ) → Queued h (x ∷ xs) → Queued (wq_pop_front h) xs
  unfolding wq_pop_front
  wq_pop_front-Queued x xs q = rw q.0.0.0 (wq_erase-Queued x [] xs q)
