-- ===== src/Fair/WaitQueue/Chain.antt =====
-- The wait queue as a ring of nodes: what the store says of a list of addresses.
use yamc.Common.{subst, ◌∙◌, ◌↔◌, sym, ℕ, ◌≡◌, ◌≢◌, refl, ap, ◌⊎◌, inl, inr, List, [], ◌∷◌, ◌++◌}
use yamc.Fair.WaitQueue.{Store, queue}

-- `b` comes right after `a`.
abbrev pub Links : Store → ℕ → ℕ → Type 0
Links h a b = (h.next a ≡ b) × (h.prev b ≡ a)

-- The nodes that follow `a`, one after the other.
abbrev pub Chain : Store → ℕ → List ℕ → Type 0
Chain h a [] = Unit {0}
Chain h a (x ∷ xs) = Links h a x × Chain h x xs

abbrev pub Fresh : ℕ → List ℕ → Type 0
Fresh a [] = Unit {0}
Fresh a (x ∷ xs) = (a ≢ x) × Fresh a xs

abbrev pub Distinct : List ℕ → Type 0
Distinct [] = Unit {0}
Distinct (x ∷ xs) = Fresh x xs × Distinct xs

-- The queue holds the nodes `xs`, the front first.
abbrev pub Queued : Store → List ℕ → Type 0
Queued h xs = Chain h queue (xs ++ queue ∷ []) × Distinct (queue ∷ xs)

abbrev pub last : ℕ → List ℕ → ℕ
last a [] = a
last a (x ∷ xs) = last x xs

abbrev pub In : ℕ → List ℕ → Type 0
In a [] = ⊥
In a (x ∷ xs) = (a ≡ x) ⊎ In a xs

-- All nodes of a chain but the last: those whose `next` the chain reads.
abbrev pub sources : ℕ → List ℕ → List ℕ
sources a [] = []
sources a (x ∷ xs) = a ∷ sources x xs

module _ (h : Store) where
  pub Chain-append :
      (a : ℕ) (xs ys : List ℕ) → Chain h a xs → Chain h (last a xs) ys → Chain h a (xs ++ ys)
  Chain-append a [] ys c d = d
  Chain-append a (x ∷ xs) ys c d = (c.0, Chain-append x xs ys c.1 d)

  pub Chain-left : (a : ℕ) (xs ys : List ℕ) → Chain h a (xs ++ ys) → Chain h a xs
  Chain-left a [] ys c = tt
  Chain-left a (x ∷ xs) ys c = (c.0, Chain-left x xs ys c.1)

  pub Chain-right : (a : ℕ) (xs ys : List ℕ) → Chain h a (xs ++ ys) → Chain h (last a xs) ys
  Chain-right a [] ys c = c
  Chain-right a (x ∷ xs) ys c = Chain-right x xs ys c.1

  -- Writes elsewhere leave a chain alone.
  pub Chain-frame :
      (g : Store) (a : ℕ) (xs : List ℕ)
      → ((c : ℕ) → In c (sources a xs) → g.next c ≡ h.next c)
      → ((c : ℕ) → In c xs → g.prev c ≡ h.prev c)
      → Chain h a xs
      → Chain g a xs
  Chain-frame g a [] n p c = tt
  Chain-frame g a (x ∷ xs) n p c = (
    (n a (inl refl) ∙ c.0.0, p x (inl refl) ∙ c.0.1),
    Chain-frame g x xs (λ d i. n d (inr i)) (λ d i. p d (inr i)) c.1,
  )

pub Fresh-ne : (a : ℕ) (xs : List ℕ) {c : ℕ} → Fresh a xs → In c xs → c ≢ a
Fresh-ne a [] f i = absurd i
Fresh-ne a (x ∷ xs) f (inl e) = λ q. f.0 (sym q ∙ e)
Fresh-ne a (x ∷ xs) f (inr i) = Fresh-ne a xs f.1 i

pub In-last : (a : ℕ) (xs : List ℕ) → In (last a xs) (a ∷ xs)
In-last a [] = inl refl
In-last a (x ∷ xs) = inr (In-last x xs)

-- The last node of a chain without repetition is no source of it.
pub sources-ne-last :
    (a : ℕ) (xs : List ℕ) {c : ℕ} → Distinct (a ∷ xs) → In c (sources a xs) → c ≢ last a xs
sources-ne-last a [] d i = absurd i
sources-ne-last a (x ∷ xs) d (inl e) = λ q. Fresh-ne a (x ∷ xs) d.0 (In-last x xs) (sym q ∙ e)
sources-ne-last a (x ∷ xs) d (inr i) = sources-ne-last x xs d.1 i

pub In-sources : (a : ℕ) (xs : List ℕ) {c : ℕ} → In c (sources a xs) → In c (a ∷ xs)
In-sources a [] i = absurd i
In-sources a (x ∷ xs) (inl e) = inl e
In-sources a (x ∷ xs) (inr i) = inr (In-sources x xs i)

pub sources-snoc : (a b : ℕ) (xs : List ℕ) → sources a (xs ++ b ∷ []) ≡ a ∷ xs
sources-snoc a b [] = refl
sources-snoc a b (x ∷ xs) = ap (λ l. a ∷ l) (sources-snoc x b xs)

pub Fresh-append : (a : ℕ) (xs ys : List ℕ) → Fresh a (xs ++ ys) ↔ (Fresh a xs × Fresh a ys)
Fresh-append a [] ys = (λ f. (tt, f), λ f. f.1)
Fresh-append a (x ∷ xs) ys =
    let r = Fresh-append a xs ys in
    (λ f. let (p, q) = r.0 f.1 in ((f.0, p), q), λ f. (f.0.0, r.1 (f.0.1, f.1)))

pub Distinct-snoc : (p : ℕ) (xs : List ℕ) → Distinct xs → Fresh p xs → Distinct (xs ++ p ∷ [])
Distinct-snoc p [] d f = (tt, tt)
Distinct-snoc p (x ∷ xs) d f =
    ((Fresh-append x xs (p ∷ [])).1 (d.0, ((λ e. f.0 (sym e)), tt)), Distinct-snoc p xs d.1 f.1)

pub last-snoc : (a b : ℕ) (xs : List ℕ) → last a (xs ++ b ∷ []) ≡ b
last-snoc a b [] = refl
last-snoc a b (x ∷ xs) = last-snoc x b xs

pub In-snoc : (b : ℕ) (xs : List ℕ) (c : ℕ) → In c (xs ++ b ∷ []) → In c xs ⊎ (c ≡ b)
In-snoc b [] c (inl e) = inr e
In-snoc b [] c (inr i) = absurd i
In-snoc b (x ∷ xs) c (inl e) = inl (inl e)
In-snoc b (x ∷ xs) c (inr i) = elim (In-snoc b xs c i) [ inl j ↦ inl (inr j) | inr e ↦ inr e ]

-- Writes elsewhere leave the rest of the queue alone.
pub Chain-tail :
    (h g : Store) (n : ℕ) (ys : List ℕ)
    → ((c : ℕ) → In c (n ∷ ys) → g.next c ≡ h.next c)
    → ((c : ℕ) → In c ys → g.prev c ≡ h.prev c)
    → g.prev queue ≡ h.prev queue
    → Chain h n (ys ++ queue ∷ [])
    → Chain g n (ys ++ queue ∷ [])
Chain-tail h g n ys next prev end c =
    Chain-frame h g n (ys ++ queue ∷ []) (λ d i. next d (subst (In d) (sources-snoc n queue ys) i))
      (λ d i. elim (In-snoc queue ys d i) [ inl j ↦ prev d j | inr e ↦ rw e end ]) c

-- What stands before and what stands after a place of a list without repetition.
pub Distinct-apart : (xs ys : List ℕ) (c d : ℕ) → Distinct (xs ++ ys) → In c xs → In d ys → c ≢ d
Distinct-apart [] ys c d u i j = absurd i
Distinct-apart (x ∷ xs) ys c d u (inl e) j =
    λ q. Fresh-ne x ys ((Fresh-append x xs ys).0 u.0).1 j (sym q ∙ e)
Distinct-apart (x ∷ xs) ys c d u (inr i) j = Distinct-apart xs ys c d u.1 i j

pub Distinct-left : (xs ys : List ℕ) → Distinct (xs ++ ys) → Distinct xs
Distinct-left [] ys u = tt
Distinct-left (x ∷ xs) ys u = (((Fresh-append x xs ys).0 u.0).0, Distinct-left xs ys u.1)

pub Distinct-right : (xs ys : List ℕ) → Distinct (xs ++ ys) → Distinct ys
Distinct-right [] ys u = u
Distinct-right (x ∷ xs) ys u = Distinct-right xs ys u.1

-- A list without repetition stays one when an entry is left out.
pub Distinct-erase :
    (xs : List ℕ) (p : ℕ) (ys : List ℕ) → Distinct (xs ++ p ∷ ys) → Distinct (xs ++ ys)
Distinct-erase [] p ys u = u.1
Distinct-erase (x ∷ xs) p ys u =
    let (a, b) = (Fresh-append x xs (p ∷ ys)).0 u.0 in
    ((Fresh-append x xs ys).1 (a, b.1), Distinct-erase xs p ys u.1)

pub In-middle : (xs : List ℕ) (p : ℕ) (ys : List ℕ) → In p (xs ++ p ∷ ys)
In-middle [] p ys = inl refl
In-middle (x ∷ xs) p ys = inr (In-middle xs p ys)

-- The node left out is not among the others.
pub Distinct-out :
    (xs : List ℕ) (p : ℕ) (ys : List ℕ) → Distinct (xs ++ p ∷ ys) → Fresh p (xs ++ ys)
Distinct-out [] p ys u = u.0
Distinct-out (x ∷ xs) p ys u =
    ((λ e. Fresh-ne x (xs ++ p ∷ ys) u.0 (In-middle xs p ys) e), Distinct-out xs p ys u.1)
