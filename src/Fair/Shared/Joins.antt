-- ===== src/Fair/Shared/Joins.antt =====
-- include/fair_shared_mutex.hpp: a request comes in at the back of the queue.
use yamc.Common.{
  ℕ, ◌≡◌, ◌≢◌, ◌⊎◌, refl, inl, inr, sym, subst, ◌∙◌, List, [], ◌∷◌, ◌++◌, length-append, arith,
}
use yamc.Fair.WaitQueue.{Store, queue, locked, request}
use yamc.Fair.WaitQueue.Chain.{In, Queued}
use yamc.Fair.WaitQueue.Members.{In-append}
use yamc.Fair.Shared.Places.{Place, outside}
use yamc.Fair.Shared.Line.{Held, free, exclusive, shared, line, Shape}
use yamc.Fair.Shared.Hold.{join, join-status, join-status_self}
use yamc.Fair.Shared.Turns.{Quiet, Quiet-same_front, Kept, Waiter}

-- The queue is empty, or its front is known.
pub front_cases :
    (held : Held) (l : List ℕ)
    → ((held ≡ free) × (l ≡ [])) ⊎ ((x : ℕ) × (xs : List ℕ) × (line held l ≡ x ∷ xs))
front_cases free [] = inl (refl, refl)
front_cases free (x ∷ xs) = inr (x, xs, refl)
front_cases exclusive l = inr (locked, l, refl)
front_cases (shared c) l = inr (locked, l, refl)

pub line-snoc : (held : Held) (l : List ℕ) (p : ℕ) → line held (l ++ p ∷ []) ≡ line held l ++ p ∷ []
line-snoc free l p = refl
line-snoc exclusive l p = refl
line-snoc (shared c) l p = refl

pub In-snoc_ne : (c p : ℕ) (l : List ℕ) → c ≢ p → In c l → In c (l ++ p ∷ [])
In-snoc_ne c p l ne j = (In-append c l (p ∷ [])).1 (inl j)

pub snoc-In_ne : (c p : ℕ) (l : List ℕ) → c ≢ p → In c (l ++ p ∷ []) → In c l
snoc-In_ne c p l ne j = elim ((In-append c l (p ∷ [])).0 j) [
  | inl k ↦ k
  | inr k ↦ elim k [ inl e ↦ absurd (ne e) | inr n ↦ absurd n ]
]

pub In-snoc_last : (p : ℕ) (l : List ℕ) → In p (l ++ p ∷ [])
In-snoc_last p l = (In-append p l (p ∷ [])).1 (inr (inl refl))

pub not-In_line :
    (i : ℕ) (held : Held) (l : List ℕ) → ¬ In (request i) l → ¬ In (request i) (line held l)
not-In_line i free l out j = out j
not-In_line i exclusive l out (inl e) = omega arith
not-In_line i exclusive l out (inr j) = out j
not-In_line i (shared c) l out (inl e) = omega arith
not-In_line i (shared c) l out (inr j) = out j

-- A request that comes in leaves the front as it was.
pub join_front :
    (g : Store) (i : ℕ) (held : Held) (l : List ℕ) (x : ℕ) (xs : List ℕ)
    → line held l ≡ x ∷ xs
    → ¬ In (request i) l
    → Queued g (line held (l ++ request i ∷ []))
    → g.next queue ≢ request i
join_front g i held l x xs e out q f =
    let shown : Queued g ((x ∷ xs) ++ request i ∷ []) =
      subst (λ k. Queued g (k ++ request i ∷ [])) e
        (subst (Queued g) (line-snoc held l (request i)) q) in
    not-In_line i held l out (subst (In (request i)) (sym e) (inl (sym f ∙ shown.0.0.0)))

pub join-Quiet :
    (i s : ℕ) (h : Store) (held : Held) (l : List ℕ) (x : ℕ) (xs : List ℕ)
    → line held l ≡ x ∷ xs
    → Queued h (line held l)
    → Queued (join (request i) s h) (line held (l ++ request i ∷ []))
    → Quiet i h l (join (request i) s h)
join-Quiet i s h held l x xs e q q' =
    let g = join (request i) s h in
    Quiet-same_front i h l g (λ c ne j. join-status h (request i) s c ne) x xs
      (xs ++ request i ∷ []) (subst (Queued h) e q)
      (subst (λ k. Queued g (k ++ request i ∷ [])) e
        (subst (Queued g) (line-snoc held l (request i)) q'))

-- The request of thread `i` at the back, with the status `s`.
pub join-Kept :
    (i s : ℕ) (Fits : ℕ → Type 0) (h : Store) (held : Held) (l : List ℕ) (w : Place)
    → Shape h held l
    → ¬ In (request i) l
    → Waiter i Fits w
    → Fits s
    → Shape (join (request i) s h) held (l ++ request i ∷ [])
    → Kept i h held l outside (join (request i) s h) held (l ++ request i ∷ []) w
join-Kept i s Fits h held l w v out at fits shape = record {
  shape = shape;
  stays = λ c ne. (In-snoc_ne c (request i) l ne, snoc-In_ne c (request i) l ne);
  others = λ c ne j. inl (join-status h (request i) s c ne);
  mine =
      (at.stand (join (request i) s h).status (l ++ request i ∷ [])).1
        (In-snoc_last (request i) l, rw (join-status_self h (request i) s) fits);
  owning = omega (arith, at.no_owner);
  sharing = omega (arith, at.no_sharer);
  queueing = omega (arith, at.waiting, length-append l (request i ∷ []));
}
