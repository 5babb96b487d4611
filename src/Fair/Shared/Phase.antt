-- ===== src/Fair/Shared/Phase.antt =====
-- include/fair_shared_mutex.hpp: what the loop of `impl_unlock` under `PhaseFairness` does to the wait
-- queue.
use mathlib.Core.List.{append_assoc, append-nil}
use yamc.Common.{
  ap, sym, subst, Bool-cases, ◌∙◌, ℕ, suc, zero, ◌<◌, ◌≡◌, ◌≢◌, refl, ◌⊎◌, inl, inr, List, [], ◌∷◌,
  ◌++◌, some, length, ◌==◌, if◌then◌else◌, arith,
}
use yamc.Fair.WaitQueue.{Store, queue, sentinel, wq_erase, wq_push_back}
use yamc.Fair.WaitQueue.Chain.{
  In-middle, Fresh-append, Distinct-right, Fresh-ne, Chain, In, Fresh, Queued, Distinct-out,
}
use yamc.Fair.WaitQueue.Push.{wq_push_back-Queued}
use yamc.Fair.WaitQueue.Remove.{wq_erase-Queued}
use yamc.Fair.Shared.{mark, sort_phase}

-- The waiting shared nodes of a list, and the waiting exclusive ones, in their order.
unfoldable pub shareds : (ℕ → ℕ) → List ℕ → List ℕ
shareds st [] = []
shareds st (x ∷ xs) = if st x == 1 then x ∷ shareds st xs else shareds st xs

unfoldable pub exclusives : (ℕ → ℕ) → List ℕ → List ℕ
exclusives st [] = []
exclusives st (x ∷ xs) = if st x == 0 then x ∷ exclusives st xs else exclusives st xs

-- The first node of a list that the sentinel ends.
abbrev pub first : List ℕ → ℕ
first [] = sentinel
first (x ∷ xs) = x

-- All nodes wait, and their status is `st`.
abbrev pub Waiting : (ℕ → ℕ) → Store → List ℕ → Type 0
Waiting st h [] = Unit {0}
Waiting st h (x ∷ xs) = (h.status x ≡ st x) × ((st x ≡ 0) ⊎ (st x ≡ 1)) × Waiting st h xs

pub wq_erase-status : (p : ℕ) (h : Store) → (wq_erase p h).status ≡ h.status
unfolding wq_erase
wq_erase-status p h = refl

pub wq_push_back-status : (p : ℕ) (h : Store) → (wq_push_back p h).status ≡ h.status
unfolding wq_push_back
wq_push_back-status p h = refl

moved-status : (h : Store) (x c : ℕ) → (wq_push_back x (wq_erase x h)).status c ≡ h.status c
moved-status h x c = ap (λ f. f c) (wq_push_back-status x (wq_erase x h) ∙ wq_erase-status x h)

next_of :
    (h : Store) (a : ℕ) (us : List ℕ) (x : ℕ) (xs ms : List ℕ)
    → Chain h a ((us ++ x ∷ (xs ++ sentinel ∷ ms)) ++ queue ∷ [])
    → h.next x ≡ first xs
next_of h a [] x [] ms c = c.1.0.0
next_of h a [] x (y ∷ xs) ms c = c.1.0.0
next_of h a (u ∷ us) x xs ms c = next_of h u us x xs ms c.1

-- What `sort_phase` leaves: the shared nodes before the sentinel and marked, the exclusive ones
-- after it.
abbrev pub Sorted : (ℕ → ℕ) → Store → List ℕ → List ℕ → List ℕ → Store → Type 0
Sorted st h us xs ms g =
    Queued g (us ++ (shareds st xs ++ sentinel ∷ (ms ++ exclusives st xs)))
    × ((c : ℕ) → In c (shareds st xs) → g.status c ≡ 3)
    × ((c : ℕ) → Fresh c (shareds st xs) → g.status c ≡ h.status c)

pub shareds-shared :
    (st : ℕ → ℕ) (x : ℕ) (xs : List ℕ) → st x ≡ 1 → shareds st (x ∷ xs) ≡ x ∷ shareds st xs
unfolding shareds
shareds-shared st x xs e = rw e

pub shareds-exclusive :
    (st : ℕ → ℕ) (x : ℕ) (xs : List ℕ) → st x ≡ 0 → shareds st (x ∷ xs) ≡ shareds st xs
unfolding shareds
shareds-exclusive st x xs e = rw e

pub exclusives-shared :
    (st : ℕ → ℕ) (x : ℕ) (xs : List ℕ) → st x ≡ 1 → exclusives st (x ∷ xs) ≡ exclusives st xs
unfolding exclusives
exclusives-shared st x xs e = rw e

pub exclusives-exclusive :
    (st : ℕ → ℕ) (x : ℕ) (xs : List ℕ) → st x ≡ 0 → exclusives st (x ∷ xs) ≡ x ∷ exclusives st xs
unfolding exclusives
exclusives-exclusive st x xs e = rw e

Fresh-shareds : (st : ℕ → ℕ) (c : ℕ) (xs : List ℕ) → Fresh c xs → Fresh c (shareds st xs)
unfolding shareds
Fresh-shareds st c [] f = f
Fresh-shareds st c (x ∷ xs) f = elim (Bool-cases (st x == 1)) [
  | inl e ↦ rw e (f.0, Fresh-shareds st c xs f.1)
  | inr e ↦ rw e (Fresh-shareds st c xs f.1)
]

pub Waiting-frame :
    (st : ℕ → ℕ) (h g : Store) (xs : List ℕ)
    → ((c : ℕ) → In c xs → g.status c ≡ h.status c)
    → Waiting st h xs
    → Waiting st g xs
Waiting-frame st h g [] f w = tt
Waiting-frame st h g (x ∷ xs) f w =
    (f x (inl refl) ∙ w.0, w.1, Waiting-frame st h g xs (λ c i. f c (inr i)) w.2)

-- One round of the loop.
round_exclusive :
    (x fuel : ℕ) (h : Store)
    → x ≢ sentinel
    → h.status x ≡ 0
    → sort_phase (suc fuel) x h ≡ sort_phase fuel (h.next x) (wq_push_back x (wq_erase x h))
unfolding sort_phase
round_exclusive x fuel h ne e = ground arith

round_shared :
    (x fuel : ℕ) (h : Store)
    → x ≢ sentinel
    → h.status x ≡ 1
    → sort_phase (suc fuel) x h ≡ sort_phase fuel (h.next x) (mark x h)
unfolding sort_phase
round_shared x fuel h ne e = ground arith

module _ (h : Store) (x : ℕ) (xs us ms : List ℕ)
    (q : Queued h (us ++ ((x ∷ xs) ++ sentinel ∷ ms))) where
  not_sentinel : x ≢ sentinel
  not_sentinel e =
      Fresh-ne x (xs ++ sentinel ∷ ms) (Distinct-right us _ q.1.1).0 (In-middle xs sentinel ms)
        (sym e)

  only_once : Fresh x xs
  only_once = ((Fresh-append x xs (sentinel ∷ ms)).0 (Distinct-right us _ q.1.1).0).0

  apart_from : (c : ℕ) → In c xs → c ≢ x
  apart_from c i = Fresh-ne x xs only_once i

  -- The exclusive node `x` has gone to the back.
  moved-Queued : Queued (wq_push_back x (wq_erase x h)) (us ++ (xs ++ sentinel ∷ (ms ++ x ∷ [])))
  moved-Queued = subst (Queued (wq_push_back x (wq_erase x h))) (simp append_assoc) (
      wq_push_back-Queued (wq_erase x h) x (us ++ (xs ++ sentinel ∷ ms))
        (wq_erase-Queued h x us (xs ++ sentinel ∷ ms) q)
        (Distinct-out (queue ∷ us) x (xs ++ sentinel ∷ ms) q.1))

  -- The shared node `x` stays where it is.
  marked-Queued : Queued (mark x h) ((us ++ x ∷ []) ++ (xs ++ sentinel ∷ ms))
  marked-Queued = subst (Queued (mark x h)) (sym (append_assoc us (x ∷ []) (xs ++ sentinel ∷ ms))) q

  marked-status : h.status x ≡ 1 → (mark x h).status x ≡ 3
  marked-status e = ground arith

  marked-elsewhere : (c : ℕ) → c ≢ x → (mark x h).status c ≡ h.status c
  marked-elsewhere c ne = ground arith

pub sort_phase-Sorted :
    (st : ℕ → ℕ) (xs us ms : List ℕ) (h : Store) (fuel : ℕ)
    → Queued h (us ++ (xs ++ sentinel ∷ ms))
    → Waiting st h xs
    → length xs < fuel
    → (g : Store) × (sort_phase fuel (first xs) h ≡ some g) × Sorted st h us xs ms g
unfolding sort_phase shareds exclusives
sort_phase-Sorted st xs us ms h zero q w lt = absurd (omega arith)
sort_phase-Sorted st [] us ms h (suc fuel) q w lt =
    (h, refl, (rw append-nil q, (λ c i. absurd i), λ c f. refl))
sort_phase-Sorted st (x ∷ xs) us ms h (suc fuel) q w lt =
    let ne = not_sentinel h x xs us ms q in
    let n = next_of h queue us x xs ms q.0 in
    elim w.1 [
      | inl e ↦
          let (g, run, (queued, marked, others)) =
            sort_phase-Sorted st xs us (ms ++ x ∷ []) (wq_push_back x (wq_erase x h)) fuel
              (moved-Queued h x xs us ms q)
              (Waiting-frame st h (wq_push_back x (wq_erase x h)) xs (λ c i. moved-status h x c)
                w.2)
              (omega arith) in
          (
            g,
            round_exclusive x fuel h ne (w.0 ∙ e) ∙ (rw n run),
            (
              rw (shareds-exclusive st x xs e) (
                  rw (exclusives-exclusive st x xs e) (
                    subst (λ l. Queued g (us ++ (shareds st xs ++ sentinel ∷ l)))
                      (append_assoc ms (x ∷ []) (exclusives st xs)) queued)),
              rw (shareds-exclusive st x xs e) marked,
              rw (shareds-exclusive st x xs e) (λ c f. others c f ∙ moved-status h x c),
            ),
          )
      | inr e ↦
          let (g, run, (queued, marked, others)) =
            sort_phase-Sorted st xs (us ++ x ∷ []) ms (mark x h) fuel (marked-Queued h x xs us ms q)
              (Waiting-frame st h (mark x h) xs
                (λ c i. marked-elsewhere h x xs us ms q c (apart_from h x xs us ms q c i)) w.2)
              (omega arith) in
          (
            g,
            round_shared x fuel h ne (w.0 ∙ e) ∙ (rw n run),
            (
              rw (shareds-shared st x xs e) (
                  rw (exclusives-shared st x xs e) (
                    subst (Queued g)
                      (append_assoc us (x ∷ [])
                        (shareds st xs ++ sentinel ∷ (ms ++ exclusives st xs)))
                      queued)),
              rw (shareds-shared st x xs e) (λ c i. elim i [
                | inl f ↦ rw f (
                    others x (Fresh-shareds st x xs (only_once h x xs us ms q))
                    ∙ marked-status h x xs us ms q (w.0 ∙ e))
                | inr j ↦ marked c j
              ]),
              rw (shareds-shared st x xs e)
                  (λ c f. others c f.1 ∙ marked-elsewhere h x xs us ms q c f.0),
            ),
          )
    ]
