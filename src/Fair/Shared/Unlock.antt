-- ===== src/Fair/Shared/Unlock.antt =====
-- include/fair_shared_mutex.hpp: which of the waiting nodes may lock once an exclusive lock is released,
-- under either fairness.
use yamc.Common.{
  asserted, refl, inr, inl, if◌then◌else◌, ◌==◌, Bool, true, false, ◌&&◌, Bool, none, size_mod, ◌-◌,
  size_mod, ap, sym, subst, ◌∙◌, ℕ, ◌<◌, ◌≡◌, ◌≢◌, List, [], ◌∷◌, ◌++◌, some, length, arith,
}
use yamc.Fair.WaitQueue.{wq_empty, Store, queue, sentinel, set_status, wq_erase}
use yamc.Fair.WaitQueue.Chain.{In-snoc, sources-snoc, Chain-frame, Fresh-ne, In, Fresh, Queued}
use yamc.Fair.WaitQueue.Push.{wq_push_back-Queued}
use yamc.Fair.WaitQueue.Remove.{wq_erase-Queued}
use yamc.Fair.Shared.{
  notify_all, returned, take_out, impl_unlock, masked, wq_pop_locknode, locked, mark_next,
  mark_group, wq_empty, mark_next, with_sentinel, sort_phase, reorder,
}
use yamc.Fair.Shared.Group.{group, mark_group-Marked}
use yamc.Fair.Shared.Phase.{
  first, Sorted, sort_phase-Sorted, Waiting, Waiting-frame, wq_erase-status, wq_push_back-status,
  shareds, exclusives,
}

-- The order of the queue once an exclusive lock is released, and the nodes that may lock then.
abbrev pub next_order : Bool → (ℕ → ℕ) → List ℕ → List ℕ
next_order phased st [] = []
next_order phased st (x ∷ xs) =
    if phased && (st x == 1) then shareds st (x ∷ xs) ++ exclusives st (x ∷ xs) else x ∷ xs

abbrev pub opened : Bool → (ℕ → ℕ) → List ℕ → List ℕ
opened phased st [] = []
opened phased st (x ∷ xs) =
    if phased then if st x == 1 then shareds st (x ∷ xs) else [] else group st (x ∷ xs)

with_sentinel-status : (h : Store) (c : ℕ) → c ≢ sentinel → (with_sentinel h).status c ≡ h.status c
with_sentinel-status h c ne =
    ap (λ f. f c) (wq_push_back-status sentinel (set_status sentinel (size_mod - 1) h))
    ∙ ground arith

first_of : (h : Store) (xs : List ℕ) → Queued h (xs ++ sentinel ∷ []) → h.next queue ≡ first xs
first_of h [] q = q.0.0.0
first_of h (x ∷ xs) q = q.0.0.0

module _ (st : ℕ → ℕ) (h : Store) (xs : List ℕ) (fuel : ℕ) (q : Queued h xs)
    (new : Fresh sentinel xs) (w : Waiting st h xs) (lt : length xs < fuel) where
  start-Queued : Queued (with_sentinel h) (xs ++ sentinel ∷ [])
  start-Queued =
      wq_push_back-Queued (set_status sentinel (size_mod - 1) h) sentinel xs q ((ground arith), new)

  sorted :
      (g : Store) × (sort_phase fuel (first xs) (with_sentinel h) ≡ some g)
      × Sorted st (with_sentinel h) [] xs [] g
  sorted =
      sort_phase-Sorted st xs [] [] (with_sentinel h) fuel start-Queued
        (Waiting-frame st h (with_sentinel h) xs
          (λ c i. with_sentinel-status h c (Fresh-ne sentinel xs new i)) w)
        lt

  reorder_sorts :
      (g : Store) × (reorder fuel h ≡ some g)
      × (Queued g (shareds st xs ++ exclusives st xs)
          × ((c : ℕ) → In c (shareds st xs) → g.status c ≡ 3)
          × ((c : ℕ) → c ≢ sentinel → Fresh c (shareds st xs) → g.status c ≡ h.status c))
  unfolding reorder
  reorder_sorts =
      let (g, run, (queued, marked, others)) = sorted in
      (
        wq_erase sentinel g,
        ap (λ o. elim o [ none ↦ none | some k ↦ some (wq_erase sentinel k) ])
            (subst (λ a. sort_phase fuel a (with_sentinel h) ≡ some g)
              (sym (first_of (with_sentinel h) xs start-Queued)) run),
        (
          wq_erase-Queued g sentinel (shareds st xs) (exclusives st xs) queued,
          λ c i. ap (λ f. f c) (wq_erase-status sentinel g) ∙ marked c i,
          λ c ne f.
              ap (λ f. f c) (wq_erase-status sentinel g) ∙ others c f ∙ with_sentinel-status h c ne,
        ),
      )

-- What a release leaves: the queue in its new order, the opened nodes marked, all else as it was.
abbrev pub Opens : Bool → (ℕ → ℕ) → Store → List ℕ → Store → Type 0
Opens phased st h xs g =
    Queued g (next_order phased st xs)
    × ((c : ℕ) → In c (opened phased st xs) → g.status c ≡ 3)
    × ((c : ℕ) → c ≢ sentinel → Fresh c (opened phased st xs) → g.status c ≡ h.status c)

module _ (h : Store) (x fuel : ℕ) (e : h.next queue ≡ x) (ne : x ≢ queue) where
  next_exclusive : h.status x ≡ 0 → mark_next fuel true h ≡ some h
  unfolding mark_next wq_empty
  next_exclusive f = ground arith

  next_shared : h.status x ≡ 1 → mark_next fuel true h ≡ reorder fuel h
  unfolding mark_next wq_empty
  next_shared f = ground arith

  next_group : mark_next fuel false h ≡ mark_group fuel x h
  unfolding mark_next wq_empty
  next_group = ground arith

mark_next-Opens :
    (phased : Bool) (st : ℕ → ℕ) (h : Store) (xs : List ℕ) (fuel : ℕ)
    → Queued h xs
    → Fresh sentinel xs
    → Waiting st h xs
    → length xs < fuel
    → (g : Store) × (mark_next fuel phased h ≡ some g) × Opens phased st h xs g
unfolding mark_next wq_empty
mark_next-Opens phased st h [] fuel q new w lt =
    (h, rw q.0.0.0 refl, (q, (λ c i. absurd i), λ c ne f. refl))
mark_next-Opens true st h (x ∷ xs) fuel q new w lt = elim w.1 [
  | inl e ↦ (
    h,
    next_exclusive h x fuel q.0.0.0 (λ f. q.1.0.0 (sym f)) (w.0 ∙ e),
    rw e (q, (λ c i. absurd i), λ c ne f. refl),
  )
  | inr e ↦
      let (g, run, sorts) = reorder_sorts st h (x ∷ xs) fuel q new w lt in
      (g, next_shared h x fuel q.0.0.0 (λ f. q.1.0.0 (sym f)) (w.0 ∙ e) ∙ run, rw e sorts)
]
mark_next-Opens false st h (x ∷ xs) fuel q new w lt =
    let (g, run, queued, (marked, others)) = mark_group-Marked st (x ∷ xs) [] h fuel q w lt in
    (
      g,
      next_group h x fuel q.0.0.0 (λ f. q.1.0.0 (sym f)) ∙ run,
      (queued, marked, λ c ne f. others c f),
    )

-- Writes to one node outside the queue.
Queued-frame :
    (h g : Store) (p : ℕ) (xs : List ℕ)
    → Fresh p (queue ∷ xs)
    → ((c : ℕ) → c ≢ p → g.next c ≡ h.next c)
    → ((c : ℕ) → c ≢ p → g.prev c ≡ h.prev c)
    → Queued h xs
    → Queued g xs
Queued-frame h g p xs new next prev q = (
  Chain-frame h g queue (xs ++ queue ∷ [])
      (λ c i. next c (Fresh-ne p (queue ∷ xs) new (subst (In c) (sources-snoc queue queue xs) i)))
      (λ c i. prev c (elim (In-snoc queue xs c i) [
        | inl j ↦ Fresh-ne p (queue ∷ xs) new (inr j)
        | inr e ↦ Fresh-ne p (queue ∷ xs) new (inl e)
      ]))
      q.0,
  q.1,
)

pub take_out-status : (h : Store) (c : ℕ) → c ≢ locked → (take_out h).status c ≡ h.status c
unfolding wq_erase
take_out-status h c ne = ground arith

pub take_out-Queued : (h : Store) (xs : List ℕ) → Queued h (locked ∷ xs) → Queued (take_out h) xs
take_out-Queued h xs q =
    Queued-frame (wq_erase locked h) (take_out h) locked xs ((λ e. q.1.0.0 (sym e)), q.1.1.0)
      (λ c ne. ground arith) (λ c ne. ground arith) (wq_erase-Queued h locked [] xs q)

pub pop_runs : (h : Store) → h.next queue ≡ locked → wq_pop_locknode h ≡ some (take_out h)
unfolding wq_pop_locknode
pop_runs h e = ground arith

may_unlock :
    (h : Store)
    → h.next queue ≡ locked
    → masked (h.status locked) ≡ 2
    → asserted (h.next queue == locked && masked (h.status locked) == 2) h ≡ some h
may_unlock h e s = ground arith

unlock_runs :
    (fuel : ℕ) (phased : Bool) (h : Store) (g : Store)
    → h.next queue ≡ locked
    → masked (h.status locked) ≡ 2
    → mark_next fuel phased (take_out h) ≡ some g
    → impl_unlock fuel phased h ≡ returned g true notify_all
unfolding impl_unlock
unlock_runs fuel phased h g e s m = rw (may_unlock h e s) (rw (pop_runs h e) (rw m refl))

-- While an exclusive lock is held all other nodes of the queue `xs` wait, and none of them is the
-- sentinel, whose address is that of a local variable. Then `impl_unlock` returns and wakes all
-- waiters, whatever the fairness: the queue holds `xs` in the next order, the opened nodes may lock,
-- and the status of no other node has changed. Under `TaskFairness` the order stays and the opened
-- nodes are the shared ones at the front; under `PhaseFairness` a shared node at the front opens all
-- shared nodes and moves them before the exclusive ones, and an exclusive one opens none.
pub unlock_opens_next :
    (phased : Bool) (h : Store) (xs : List ℕ) (fuel : ℕ)
    → Queued h (locked ∷ xs)
    → masked (h.status locked) ≡ 2
    → Fresh sentinel xs
    → Waiting h.status h xs
    → length xs < fuel
    → (g : Store) × (impl_unlock fuel phased h ≡ returned g true notify_all)
      × (Queued g (next_order phased h.status xs)
          × ((c : ℕ) → In c (opened phased h.status xs) → g.status c ≡ 3)
          × ((c : ℕ)
              → c ≢ sentinel
              → c ≢ locked
              → Fresh c (opened phased h.status xs)
              → g.status c ≡ h.status c))
unlock_opens_next phased h xs fuel q s new w lt =
    let apart = λ (c : ℕ) (i : In c xs). Fresh-ne locked xs q.1.1.0 i in
    let (g, run, (queued, marked, others)) =
      mark_next-Opens phased h.status (take_out h) xs fuel (take_out-Queued h xs q) new
        (Waiting-frame h.status h (take_out h) xs (λ c i. take_out-status h c (apart c i)) w) lt in
    (
      g,
      unlock_runs fuel phased h g q.0.0.0 s run,
      (queued, marked, λ c ne nl f. others c ne f ∙ take_out-status h c nl),
    )
