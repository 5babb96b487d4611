-- ===== src/Fair/Shared/Line.antt =====
-- include/fair_shared_mutex.hpp: the nodes that wait, in their order: first the shared ones that may lock,
-- then, unless an exclusive lock is held, an exclusive one and all others.
use yamc.Common.{ℕ, ◌+◌, ◌*◌, ◌^◌, ◌<◌, ◌≤◌, ◌≡◌, ◌≢◌, ◌⊎◌, refl, inl, inr, List, [], ◌∷◌, ◌++◌}
use yamc.Fair.WaitQueue.{Store, locked}
use yamc.Fair.WaitQueue.Chain.{In, Queued, last}

-- Who holds the lock: nobody, one thread, or `c` threads together.
pub data Held : Type 0 where
  free exclusive : Held
  shared : (c : ℕ) → Held

-- The whole queue, when the requests in it are `l`.
abbrev pub line : Held → List ℕ → List ℕ
line free l = l
line exclusive l = locked ∷ l
line (shared c) l = locked ∷ l

abbrev pub Rest : (ℕ → ℕ) → List ℕ → Type 0
Rest st [] = Unit {0}
Rest st (x ∷ xs) = ((st x ≡ 0) ⊎ (st x ≡ 1)) × Rest st xs

abbrev pub Groups : (ℕ → ℕ) → List ℕ → Type 0
Groups st [] = Unit {0}
Groups st (x ∷ xs) = ((st x ≡ 3) × Groups st xs) ⊎ ((st x ≡ 0) × Rest st xs)

abbrev pub Ordered : (ℕ → ℕ) → Held → List ℕ → Type 0
Ordered st exclusive l = Rest st l
Ordered st free l = Groups st l
Ordered st (shared c) l = Groups st l

-- The status of `locked_`.
abbrev pub LockNode : Held → ℕ → Type 0
LockNode free s = Unit {0}
LockNode exclusive s = s ≡ 6
LockNode (shared c) s = (s ≡ 4 * c + 3) × (0 < c) × (c < 2 ^ 62)

-- What the store says.
pub record Shape (h : Store) (held : Held) (l : List ℕ) : Type 0 where
  pub queued : Queued h (line held l)
  pub lock_node : LockNode held (h.status locked)
  pub ordered : Ordered h.status held l
  pub requests : (c : ℕ) → In c l → 4 ≤ c

pub Rest-In : (st : ℕ → ℕ) (xs : List ℕ) (c : ℕ) → Rest st xs → In c xs → (st c ≡ 0) ⊎ (st c ≡ 1)
Rest-In st [] c r j = absurd j
Rest-In st (x ∷ xs) c r (inl e) = rw e r.0
Rest-In st (x ∷ xs) c r (inr j) = Rest-In st xs c r.1 j

module _ (st st' : ℕ → ℕ) where
  pub Rest-frame : (xs : List ℕ) → ((c : ℕ) → In c xs → st' c ≡ st c) → Rest st xs → Rest st' xs
  Rest-frame [] f r = tt
  Rest-frame (x ∷ xs) f r = (rw (f x (inl refl)) r.0, Rest-frame xs (λ c j. f c (inr j)) r.1)

  pub Groups-frame :
      (xs : List ℕ) → ((c : ℕ) → In c xs → st' c ≡ st c) → Groups st xs → Groups st' xs
  Groups-frame [] f g = tt
  Groups-frame (x ∷ xs) f (inl (e, g)) =
      inl (rw (f x (inl refl)) e, Groups-frame xs (λ c j. f c (inr j)) g)
  Groups-frame (x ∷ xs) f (inr (e, r)) =
      inr (rw (f x (inl refl)) e, Rest-frame xs (λ c j. f c (inr j)) r)

  pub Ordered-frame :
      (held : Held) (xs : List ℕ)
      → ((c : ℕ) → In c xs → st' c ≡ st c)
      → Ordered st held xs
      → Ordered st' held xs
  Ordered-frame free xs f o = Groups-frame xs f o
  Ordered-frame exclusive xs f o = Rest-frame xs f o
  Ordered-frame (shared c) xs f o = Groups-frame xs f o

module _ (st : ℕ → ℕ) where
  pub Rest-snoc :
      (xs : List ℕ) (p : ℕ) → Rest st xs → (st p ≡ 0) ⊎ (st p ≡ 1) → Rest st (xs ++ p ∷ [])
  Rest-snoc [] p r e = (e, tt)
  Rest-snoc (x ∷ xs) p r e = (r.0, Rest-snoc xs p r.1 e)

  -- An exclusive request may come at any time.
  pub Groups-snoc_exclusive :
      (xs : List ℕ) (p : ℕ) → Groups st xs → st p ≡ 0 → Groups st (xs ++ p ∷ [])
  Groups-snoc_exclusive [] p g e = inr (e, tt)
  Groups-snoc_exclusive (x ∷ xs) p (inl (f, g)) e = inl (f, Groups-snoc_exclusive xs p g e)
  Groups-snoc_exclusive (x ∷ xs) p (inr (f, r)) e = inr (f, Rest-snoc xs p r (inl e))

  -- A shared one waits behind a node that waits.
  pub Groups-snoc_shared :
      (x : ℕ) (xs : List ℕ) (p : ℕ)
      → Groups st (x ∷ xs)
      → st (last x xs) ≢ 3
      → st p ≡ 1
      → Groups st ((x ∷ xs) ++ p ∷ [])
  Groups-snoc_shared x [] p (inl (f, g)) ne e = absurd (ne f)
  Groups-snoc_shared x (y ∷ ys) p (inl (f, g)) ne e = inl (f, Groups-snoc_shared y ys p g ne e)
  Groups-snoc_shared x xs p (inr (f, r)) ne e = inr (f, Rest-snoc xs p r (inr e))

  pub Rest-erase : (us : List ℕ) (p : ℕ) (ys : List ℕ) → Rest st (us ++ p ∷ ys) → Rest st (us ++ ys)
  Rest-erase [] p ys r = r.1
  Rest-erase (u ∷ us) p ys r = (r.0, Rest-erase us p ys r.1)

  -- A shared request leaves the queue, once it may lock or before.
  pub Groups-erase :
      (us : List ℕ) (p : ℕ) (ys : List ℕ)
      → Groups st (us ++ p ∷ ys)
      → st p ≢ 0
      → Groups st (us ++ ys)
  Groups-erase [] p ys (inl (f, g)) ne = g
  Groups-erase [] p ys (inr (f, r)) ne = absurd (ne f)
  Groups-erase (u ∷ us) p ys (inl (f, g)) ne = inl (f, Groups-erase us p ys g ne)
  Groups-erase (u ∷ us) p ys (inr (f, r)) ne = inr (f, Rest-erase us p ys r)

  pub Ordered-erase :
      (held : Held) (us : List ℕ) (p : ℕ) (ys : List ℕ)
      → Ordered st held (us ++ p ∷ ys)
      → st p ≢ 0
      → Ordered st held (us ++ ys)
  Ordered-erase free us p ys o ne = Groups-erase us p ys o ne
  Ordered-erase exclusive us p ys o ne = Rest-erase us p ys o
  Ordered-erase (shared c) us p ys o ne = Groups-erase us p ys o ne

  -- The status of a request is never another.
  pub Groups-In :
      (xs : List ℕ) (c : ℕ) → Groups st xs → In c xs → (st c ≡ 0) ⊎ (st c ≡ 1) ⊎ (st c ≡ 3)
  Groups-In [] c g j = absurd j
  Groups-In (x ∷ xs) c (inl (f, g)) (inl e) = inr (inr (rw e f))
  Groups-In (x ∷ xs) c (inl (f, g)) (inr j) = Groups-In xs c g j
  Groups-In (x ∷ xs) c (inr (f, r)) (inl e) = inl (rw e f)
  Groups-In (x ∷ xs) c (inr (f, r)) (inr j) = elim (Rest-In st xs c r j) [
    | inl e ↦ inl e
    | inr e ↦ inr (inl e)
  ]
