-- ===== src/Fair/Shared/Group.antt =====
-- include/fair_shared_mutex.hpp: what the loop that marks a group of shared nodes does, in `impl_unlock`
-- under `TaskFairness` and in `impl_try_lockwait` after a timeout.
use mathlib.Core.List.{append_assoc}
use yamc.Common.{
  if◌then◌else◌, ◌==◌, length, inr, ◌∙◌, inl, sym, Bool-cases, subst, arith, ℕ, suc, zero, ◌<◌, ◌≡◌,
  ◌≢◌, refl, List, [], ◌∷◌, ◌++◌, some,
}
use yamc.Fair.WaitQueue.{Store, queue}
use yamc.Fair.WaitQueue.Chain.{In-middle, Fresh-ne, Distinct-right, Chain, In, Fresh, Queued}
use yamc.Fair.Shared.{mark, mark_group}
use yamc.Fair.Shared.Phase.{Waiting, Waiting-frame}

-- The waiting shared nodes at the head of a list.
unfoldable pub group : (ℕ → ℕ) → List ℕ → List ℕ
group st [] = []
group st (x ∷ xs) = if st x == 1 then x ∷ group st xs else []

-- The first node of a list that the queue itself ends.
abbrev pub front : List ℕ → ℕ
front [] = queue
front (x ∷ xs) = x

pub front_next :
    (h : Store) (a : ℕ) (us : List ℕ) (x : ℕ) (xs : List ℕ)
    → Chain h a ((us ++ x ∷ xs) ++ queue ∷ [])
    → h.next x ≡ front xs
front_next h a [] x [] c = c.1.0.0
front_next h a [] x (y ∷ xs) c = c.1.0.0
front_next h a (u ∷ us) x xs c = front_next h u us x xs c.1

-- The nodes `os` are marked, and no other node is touched.
abbrev pub Marked : List ℕ → Store → Store → Type 0
Marked os h g =
    ((c : ℕ) → In c os → g.status c ≡ 3) × ((c : ℕ) → Fresh c os → g.status c ≡ h.status c)

pub Fresh-group : (st : ℕ → ℕ) (c : ℕ) (xs : List ℕ) → Fresh c xs → Fresh c (group st xs)
unfolding group
Fresh-group st c [] f = f
Fresh-group st c (x ∷ xs) f = elim (Bool-cases (st x == 1)) [
  | inl e ↦ rw e (f.0, Fresh-group st c xs f.1)
  | inr e ↦ rw e tt
]

pub group-shared :
    (st : ℕ → ℕ) (x : ℕ) (xs : List ℕ) → st x ≡ 1 → group st (x ∷ xs) ≡ x ∷ group st xs
unfolding group
group-shared st x xs e = rw e

pub group-exclusive : (st : ℕ → ℕ) (x : ℕ) (xs : List ℕ) → st x ≡ 0 → group st (x ∷ xs) ≡ []
unfolding group
group-exclusive st x xs e = rw e

round_stops : (x fuel : ℕ) (h : Store) → h.status x ≡ 0 → mark_group (suc fuel) x h ≡ some h
unfolding mark_group
round_stops x fuel h e = ground arith

round_marks :
    (x fuel : ℕ) (h : Store)
    → x ≢ queue
    → h.status x ≡ 1
    → mark_group (suc fuel) x h ≡ mark_group fuel (h.next x) (mark x h)
unfolding mark_group
round_marks x fuel h ne e = ground arith

module _ (h : Store) (us : List ℕ) (x : ℕ) (xs : List ℕ) (q : Queued h (us ++ x ∷ xs)) where
  not_queue : x ≢ queue
  not_queue e = Fresh-ne queue (us ++ x ∷ xs) q.1.0 (In-middle us x xs) e

  once : Fresh x xs
  once = (Distinct-right us (x ∷ xs) q.1.1).0

  still-Queued : Queued (mark x h) ((us ++ x ∷ []) ++ xs)
  still-Queued = subst (Queued (mark x h)) (sym (append_assoc us (x ∷ []) xs)) q

marks : (h : Store) (x : ℕ) → h.status x ≡ 1 → (mark x h).status x ≡ 3
marks h x e = ground arith

marks_else : (h : Store) (x c : ℕ) → c ≢ x → (mark x h).status c ≡ h.status c
marks_else h x c ne = ground arith

pub mark_group-Marked :
    (st : ℕ → ℕ) (xs us : List ℕ) (h : Store) (fuel : ℕ)
    → Queued h (us ++ xs)
    → Waiting st h xs
    → length xs < fuel
    → (g : Store) × (mark_group fuel (front xs) h ≡ some g)
      × Queued g (us ++ xs)
      × Marked (group st xs) h g
unfolding mark_group group
mark_group-Marked st xs us h zero q w lt = absurd (omega arith)
mark_group-Marked st [] us h (suc fuel) q w lt = (h, refl, q, ((λ c i. absurd i), λ c f. refl))
mark_group-Marked st (x ∷ xs) us h (suc fuel) q w lt = elim w.1 [
  | inl e ↦ (
    h,
    round_stops x fuel h (w.0 ∙ e),
    q,
    rw (group-exclusive st x xs e) ((λ c i. absurd i), λ c f. refl),
  )
  | inr e ↦
      let (g, run, queued, (marked, others)) =
        mark_group-Marked st xs (us ++ x ∷ []) (mark x h) fuel (still-Queued h us x xs q)
          (Waiting-frame st h (mark x h) xs
            (λ c i. marks_else h x c (Fresh-ne x xs (once h us x xs q) i)) w.2)
          (omega arith) in
      (
        g,
        round_marks x fuel h (not_queue h us x xs q) (w.0 ∙ e)
            ∙ subst (λ a. mark_group fuel a (mark x h) ≡ some g)
                (sym (front_next h queue us x xs q.0)) run,
        subst (Queued g) (append_assoc us (x ∷ []) xs) queued,
        (
          rw (group-shared st x xs e) (λ c i. elim i [
            | inl f ↦ rw f (others x (Fresh-group st x xs (once h us x xs q)) ∙ marks h x (w.0 ∙ e))
            | inr j ↦ marked c j
          ]),
          rw (group-shared st x xs e) (λ c f. others c f.1 ∙ marks_else h x c f.0),
        ),
      )
]
