-- ===== src/Fair/WaitQueue/Members.antt =====
-- include/fair_mutex.hpp, include/fair_shared_mutex.hpp: which nodes are in the wait queue.
use yamc.Common.{ℕ, ◌≡◌, ◌≢◌, ◌⊎◌, ◌↔◌, refl, inl, inr, List, [], ◌∷◌, ◌++◌}
use yamc.Fair.WaitQueue.Chain.{In, Fresh}

pub In-append : (c : ℕ) (xs ys : List ℕ) → In c (xs ++ ys) ↔ (In c xs ⊎ In c ys)
In-append c [] ys = (λ i. inr i, λ i. elim i [ inl j ↦ absurd j | inr j ↦ j ])
In-append c (x ∷ xs) ys =
    let (there, back) = In-append c xs ys in
    (
      λ i. elim i [
        | inl e ↦ inl (inl e)
        | inr j ↦ elim (there j) [ inl k ↦ inl (inr k) | inr k ↦ inr k ]
      ],
      λ i. elim i [
        | inl j ↦ elim j [ inl e ↦ inl e | inr k ↦ inr (back (inl k)) ]
        | inr j ↦ inr (back (inr j))
      ],
    )

-- The other nodes stay when one is left out.
pub In-erase : (c p : ℕ) (us ys : List ℕ) → c ≢ p → In c (us ++ p ∷ ys) ↔ In c (us ++ ys)
In-erase c p [] ys ne = (λ i. elim i [ inl e ↦ absurd (ne e) | inr j ↦ j ], λ i. inr i)
In-erase c p (u ∷ us) ys ne =
    let (there, back) = In-erase c p us ys ne in
    (
      λ i. elim i [ inl e ↦ inl e | inr j ↦ inr (there j) ],
      λ i. elim i [ inl e ↦ inl e | inr j ↦ inr (back j) ],
    )

-- Where a node stands in a list.
pub In-split : (c : ℕ) (l : List ℕ) → In c l → (us ys : List ℕ) × (l ≡ us ++ c ∷ ys)
In-split c [] j = absurd j
In-split c (x ∷ xs) (inl e) = ([], xs, rw e refl)
In-split c (x ∷ xs) (inr j) = let (us, ys, e) = In-split c xs j in (x ∷ us, ys, rw e refl)

pub Fresh-not_In : (c : ℕ) (l : List ℕ) → ¬ In c l → Fresh c l
Fresh-not_In c [] out = tt
Fresh-not_In c (x ∷ xs) out = ((λ e. out (inl e)), Fresh-not_In c xs (λ j. out (inr j)))

pub not-In-Fresh : (c : ℕ) (l : List ℕ) → Fresh c l → ¬ In c l
not-In-Fresh c [] f = λ j. j
not-In-Fresh c (x ∷ xs) f = λ i. elim i [ inl e ↦ f.0 e | inr j ↦ not-In-Fresh c xs f.1 j ]
