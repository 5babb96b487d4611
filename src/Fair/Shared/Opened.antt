-- ===== src/Fair/Shared/Opened.antt =====
-- include/fair_shared_mutex.hpp: the queue is in order again once waiting nodes have been marked.
use yamc.Common.{
  ℕ, ◌+◌, ◌≡◌, ◌⊎◌, ◌↔◌, refl, inl, inr, sym, ◌∙◌, subst, Bool, true, false, Bool-cases, List, [],
  ◌∷◌, ◌++◌, length, length-append, if◌then◌else◌, ◌==◌, eq_or_ne, arith,
}
use yamc.Fair.WaitQueue.Chain.{
  In, Fresh, Distinct, Fresh-ne, last, In-last, Fresh-append, Distinct-erase,
}
use yamc.Fair.WaitQueue.Members.{In-append, Fresh-not_In}
use yamc.Fair.Shared.{masked}
use yamc.Fair.Shared.Phase.{
  shareds, exclusives, shareds-shared, shareds-exclusive, exclusives-shared, exclusives-exclusive,
}
use yamc.Fair.Shared.Group.{Fresh-group, group, group-shared, group-exclusive}
use yamc.Fair.Shared.Line.{Rest, Groups, Rest-In, Rest-frame, Rest-erase}

pub In-or_Fresh : (c : ℕ) (xs : List ℕ) → In c xs ⊎ Fresh c xs
In-or_Fresh c [] = inr tt
In-or_Fresh c (x ∷ xs) = elim (eq_or_ne c x) [
  | inl e ↦ inl (inl e)
  | inr ne ↦ elim (In-or_Fresh c xs) [ inl j ↦ inl (inr j) | inr f ↦ inr (ne, f) ]
]

module _ (st : ℕ → ℕ) where
  pub group-In : (xs : List ℕ) (c : ℕ) → In c (group st xs) → st c ≡ 1
  unfolding group
  group-In [] c j = absurd j
  group-In (x ∷ xs) c j = elim (Bool-cases (st x == 1)) [
    | inl e ↦ elim (subst (λ (b : Bool). In c (if b then x ∷ group st xs else [])) e j) [
      | inl f ↦ rw f (ground arith)
      | inr k ↦ group-In xs c k
    ]
    | inr e ↦ absurd (subst (λ (b : Bool). In c (if b then x ∷ group st xs else [])) e j)
  ]

  -- The nodes of a queue in which all wait, with the shared ones up to the first other node marked.
  pub group-Groups :
      (st' : ℕ → ℕ) (xs : List ℕ)
      → Rest st xs
      → Distinct xs
      → ((c : ℕ) → In c (group st xs) → st' c ≡ 3)
      → ((c : ℕ) → In c xs → Fresh c (group st xs) → st' c ≡ st c)
      → Groups st' xs
  unfolding group
  group-Groups st' [] r d marked others = tt
  group-Groups st' (x ∷ xs) (inl e, r) d marked others =
      let same = λ (c : ℕ) (j : In c (x ∷ xs)).
        others c j (subst (Fresh c) (sym (group-exclusive st x xs e)) tt) in
      inr (same x (inl refl) ∙ e, Rest-frame st st' xs (λ c j. same c (inr j)) r)
  group-Groups st' (x ∷ xs) (inr e, r) d marked others =
      let shown = sym (group-shared st x xs e) in
      inl (
        marked x (subst (In x) shown (inl refl)),
        group-Groups st' xs r d.1 (λ c j. marked c (subst (In c) shown (inr j)))
            (λ c j f. others c (inr j) (subst (Fresh c) shown (Fresh-ne x xs d.0 j, f))),
      )

  pub shareds-In : (xs : List ℕ) (c : ℕ) → Rest st xs → In c (shareds st xs) → (st c ≡ 1) × In c xs
  unfolding shareds
  shareds-In [] c r j = absurd j
  shareds-In (x ∷ xs) c (inl e, r) j =
      let (a, b) = shareds-In xs c r (subst (In c) (shareds-exclusive st x xs e) j) in (a, inr b)
  shareds-In (x ∷ xs) c (inr e, r) j = elim (subst (In c) (shareds-shared st x xs e) j) [
    | inl f ↦ (rw f e, inl f)
    | inr k ↦ let (a, b) = shareds-In xs c r k in (a, inr b)
  ]

  pub exclusives-In :
      (xs : List ℕ) (c : ℕ) → Rest st xs → In c (exclusives st xs) → (st c ≡ 0) × In c xs
  unfolding exclusives
  exclusives-In [] c r j = absurd j
  exclusives-In (x ∷ xs) c (inl e, r) j = elim (subst (In c) (exclusives-exclusive st x xs e) j) [
    | inl f ↦ (rw f e, inl f)
    | inr k ↦ let (a, b) = exclusives-In xs c r k in (a, inr b)
  ]
  exclusives-In (x ∷ xs) c (inr e, r) j =
      let (a, b) = exclusives-In xs c r (subst (In c) (exclusives-shared st x xs e) j) in (a, inr b)

  -- The two parts hold every node, and no more.
  In-parts :
      (xs : List ℕ) (c : ℕ) → Rest st xs → In c xs → In c (shareds st xs) ⊎ In c (exclusives st xs)
  In-parts [] c r j = absurd j
  In-parts (x ∷ xs) c (inl e, r) j = rw (shareds-exclusive st x xs e) (
      rw (exclusives-exclusive st x xs e) (elim j [
        | inl f ↦ inr (inl f)
        | inr k ↦ elim (In-parts xs c r k) [ inl a ↦ inl a | inr b ↦ inr (inr b) ]
      ]))
  In-parts (x ∷ xs) c (inr e, r) j = rw (shareds-shared st x xs e) (
      rw (exclusives-shared st x xs e) (elim j [
        | inl f ↦ inl (inl f)
        | inr k ↦ elim (In-parts xs c r k) [ inl a ↦ inl (inr a) | inr b ↦ inr b ]
      ]))

  pub In-sorted :
      (xs : List ℕ) (c : ℕ) → Rest st xs → In c xs ↔ In c (shareds st xs ++ exclusives st xs)
  In-sorted xs c r = (
    λ j. (In-append c (shareds st xs) (exclusives st xs)).1 (In-parts xs c r j),
    λ j. elim ((In-append c (shareds st xs) (exclusives st xs)).0 j) [
      | inl a ↦ (shareds-In xs c r a).1
      | inr b ↦ (exclusives-In xs c r b).1
    ],
  )

  parts_length :
      (xs : List ℕ) → Rest st xs → length (shareds st xs) + length (exclusives st xs) ≡ length xs
  unfolding shareds exclusives
  parts_length [] r = refl
  parts_length (x ∷ xs) (inl e, r) =
      rw (shareds-exclusive st x xs e)
        (rw (exclusives-exclusive st x xs e) (omega (arith, parts_length xs r)))
  parts_length (x ∷ xs) (inr e, r) =
      rw (shareds-shared st x xs e)
        (rw (exclusives-shared st x xs e) (omega (arith, parts_length xs r)))

  pub length-sorted :
      (xs : List ℕ) → Rest st xs → length (shareds st xs ++ exclusives st xs) ≡ length xs
  length-sorted xs r = length-append (shareds st xs) (exclusives st xs) ∙ parts_length xs r

Groups-append :
    (st : ℕ → ℕ) (us vs : List ℕ)
    → ((c : ℕ) → In c us → st c ≡ 3)
    → Groups st vs
    → Groups st (us ++ vs)
Groups-append st [] vs f g = g
Groups-append st (u ∷ us) vs f g =
    inl (f u (inl refl), Groups-append st us vs (λ c j. f c (inr j)) g)

Rest-zero : (st : ℕ → ℕ) (xs : List ℕ) → ((c : ℕ) → In c xs → st c ≡ 0) → Rest st xs
Rest-zero st [] f = tt
Rest-zero st (x ∷ xs) f = (inl (f x (inl refl)), Rest-zero st xs (λ c j. f c (inr j)))

Groups-zero : (st : ℕ → ℕ) (xs : List ℕ) → ((c : ℕ) → In c xs → st c ≡ 0) → Groups st xs
Groups-zero st [] f = tt
Groups-zero st (x ∷ xs) f = inr (f x (inl refl), Rest-zero st xs (λ c j. f c (inr j)))

-- The nodes of a queue in which all wait, sorted, with the shared ones marked.
pub sorted-Groups :
    (st st' : ℕ → ℕ) (xs : List ℕ)
    → Rest st xs
    → ((c : ℕ) → In c (shareds st xs) → st' c ≡ 3)
    → ((c : ℕ) → In c xs → Fresh c (shareds st xs) → st' c ≡ st c)
    → Groups st' (shareds st xs ++ exclusives st xs)
sorted-Groups st st' xs r marked others =
    Groups-append st' (shareds st xs) (exclusives st xs) marked (
      Groups-zero st' (exclusives st xs) (λ c j.
        let (zero_status, there) = exclusives-In st xs c r j in
        others c there
          (Fresh-not_In c (shareds st xs) (λ k. ground (arith, (shareds-In st xs c r k).0)))
        ∙ zero_status))

Rest-right : (st : ℕ → ℕ) (us ys : List ℕ) → Rest st (us ++ ys) → Rest st ys
Rest-right st [] ys r = r
Rest-right st (u ∷ us) ys r = Rest-right st us ys r.1

pub Rest-left : (st : ℕ → ℕ) (us ys : List ℕ) → Rest st (us ++ ys) → Rest st us
Rest-left st [] ys r = tt
Rest-left st (u ∷ us) ys r = (r.0, Rest-left st us ys r.1)

-- Behind an exclusive request all wait.
pub Groups-after :
    (st : ℕ → ℕ) (us : List ℕ) (p : ℕ) (ys : List ℕ)
    → Groups st (us ++ p ∷ ys)
    → st p ≡ 0
    → Rest st ys
Groups-after st [] p ys (inl (f, g)) e = absurd (omega arith)
Groups-after st [] p ys (inr (f, r)) e = r
Groups-after st (u ∷ us) p ys (inl (f, g)) e = Groups-after st us p ys g e
Groups-after st (u ∷ us) p ys (inr (f, r)) e = (Rest-right st us (p ∷ ys) r).1

pub Rest-after :
    (st : ℕ → ℕ) (us : List ℕ) (p : ℕ) (ys : List ℕ) → Rest st (us ++ p ∷ ys) → Rest st ys
Rest-after st us p ys r = (Rest-right st us (p ∷ ys) r).1

-- The nodes that a timeout opens behind the node `b` and the nodes `us`.
abbrev pub opened_behind : (ℕ → ℕ) → ℕ → List ℕ → List ℕ → List ℕ
opened_behind st b us ys = if masked (st (last b us)) == 3 then group st ys else []

module _ (st st' : ℕ → ℕ) (p : ℕ) (ys : List ℕ) where
  pub waits_before :
      (u : ℕ) (us : List ℕ) → Rest st (u ∷ us) → (masked (st (last u us)) == 3) ≡ false
  waits_before u us r = elim (Rest-In st (u ∷ us) (last u us) r (In-last u us)) [
    | inl e ↦ rw e refl
    | inr e ↦ rw e refl
  ]

  -- An exclusive request gives up.
  pub gives_up-Groups :
      (b : ℕ) (us : List ℕ)
      → Groups st (us ++ p ∷ ys)
      → st p ≡ 0
      → (us ≡ [] → masked (st b) ≡ 3)
      → Distinct (us ++ p ∷ ys)
      → ((c : ℕ) → In c (opened_behind st b us ys) → st' c ≡ 3)
      → ((c : ℕ) → Fresh c (opened_behind st b us ys) → st' c ≡ st c)
      → Groups st' (us ++ ys)
  gives_up-Groups b [] g z before d marked others =
      let opens : (masked (st b) == 3) ≡ true = rw (before refl) refl in
      let shown = λ (P : List ℕ → Type 0) (x : P (group st ys)).
        subst (λ (t : Bool). P (if t then group st ys else [])) (sym opens) x in
      group-Groups st st' ys (Groups-after st [] p ys g z) d.1 (λ c j. marked c (shown (In c) j))
        (λ c j f. others c (shown (Fresh c) f))
  gives_up-Groups b (u ∷ us) (inl (e, g)) z before d marked others =
      let apart : Fresh u (opened_behind st u us ys) =
        elim (Bool-cases (masked (st (last u us)) == 3)) [
          | inl t ↦ rw t (
              Fresh-group st u ys ((Fresh-append u us ys).0 ((Distinct-erase (u ∷ us) p ys d).0)).1)
          | inr t ↦ rw t tt
        ] in
      inl (others u apart ∙ e, gives_up-Groups u us g z (λ none. rw e refl) d.1 marked others)
  gives_up-Groups b (u ∷ us) (inr (e, r)) z before d marked others =
      let closed = waits_before u us (inl e, Rest-left st us (p ∷ ys) r) in
      let same = λ (c : ℕ). others c (rw closed tt) in
      inr (same u ∙ e, Rest-frame st st' (us ++ ys) (λ c j. same c) (Rest-erase st us p ys r))

-- The status of a node that is opened, and of any other.
pub opened_change :
    (st st' : ℕ → ℕ) (os : List ℕ)
    → ((c : ℕ) → In c os → st c ≡ 1)
    → ((c : ℕ) → In c os → st' c ≡ 3)
    → (c : ℕ) → (Fresh c os → st' c ≡ st c)
    → (st' c ≡ st c) ⊎ ((st c ≡ 1) × (st' c ≡ 3))
opened_change st st' os one three c same = elim (In-or_Fresh c os) [
  | inl j ↦ inr (one c j, three c j)
  | inr f ↦ inl (same f)
]
