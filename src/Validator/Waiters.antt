-- ===== src/Validator/Waiters.antt =====
-- include/yamc_lock_validator.hpp: where a thread stands among the waiters of the table.
use yamc.Common.{
  ℕ, ◌≡◌, ◌≢◌, ◌↔◌, refl, List, [], ◌∷◌, ◌++◌, ◌⊎◌, inl, inr, Bool-cases, if◌then◌else◌, ◌==◌,
  arith, sym, ◌∙◌,
}
use yamc.Fair.WaitQueue.Chain.{In, In-snoc}
use yamc.Validator.{Entry, change, remove_elem, add_waiter, remove_waiter}
use yamc.Validator.WaitsFor.{Blocks, Waits, In-remove_elem}

abbrev blank : ℕ → Entry
blank k = record { key = k; mid = 0; owners = []; waiters = [] }

-- `mutexmap[k]`.
abbrev pub entry_of : ℕ → List Entry → Entry
entry_of k [] = blank k
entry_of k (e ∷ m) = if e.key == k then e else entry_of k m

-- `w` waits, and not only for `k`.
abbrev pub WaitsOff : ℕ → List Entry → ℕ → Type 0
WaitsOff k [] w = ⊥
WaitsOff k (e ∷ m) w = if e.key == k then Waits m w else In w e.waiters ⊎ WaitsOff k m w

pub entry_of-change :
    (k j : ℕ) (f : Entry → Entry) (m : List Entry)
    → ((e : Entry) → (f e).key ≡ e.key)
    → entry_of j (change k f m) ≡ (if k == j then f (entry_of j m) else entry_of j m)
entry_of-change k j f [] same = ground (arith, same (blank k), same (blank j))
entry_of-change k j f (x ∷ m) same = ground (arith, same x, entry_of-change k j f m same)

pub entry_of-Blocks :
    (k : ℕ) (m : List Entry) (t w : ℕ)
    → In t (entry_of k m).owners
    → In w (entry_of k m).waiters
    → Blocks m t w
entry_of-Blocks k [] t w o i = absurd o
entry_of-Blocks k (x ∷ m) t w o i = elim (Bool-cases (x.key == k)) [
  | inl e ↦ inl (rw e at o, rw e at i)
  | inr e ↦ inr (entry_of-Blocks k m t w (rw e at o) (rw e at i))
]

module _ (k : ℕ) (x : Entry) (m : List Entry) (w : ℕ) where
  off_at : x.key ≡ k → Waits m w → WaitsOff k (x ∷ m) w
  off_at q u = elim (Bool-cases (x.key == k)) [ inl e ↦ rw e u | inr e ↦ absurd (ground arith) ]

  off_else : x.key ≢ k → In w x.waiters ⊎ WaitsOff k m w → WaitsOff k (x ∷ m) w
  off_else ne u = elim (Bool-cases (x.key == k)) [ inl e ↦ absurd (ground arith) | inr e ↦ rw e u ]

  off_inv :
      WaitsOff k (x ∷ m) w
      → ((x.key ≡ k) × Waits m w) ⊎ ((x.key ≢ k) × (In w x.waiters ⊎ WaitsOff k m w))
  off_inv v = elim (Bool-cases (x.key == k)) [
    | inl e ↦ inl ((ground arith), rw e at v)
    | inr e ↦ inr ((λ q. ground arith), rw e at v)
  ]

-- A change that leaves the thread `w` where it was.
module _ (w k : ℕ) (f : Entry → Entry)
    (back : (e : Entry) → In w (f e).waiters → In w e.waiters) where
  pub Waits-change : (m : List Entry) → Waits (change k f m) w → Waits m w
  Waits-change [] (inl i) = absurd (back _ i)
  Waits-change [] (inr v) = v
  Waits-change (x ∷ m) v = elim (Bool-cases (x.key == k)) [
    | inl e ↦ elim (rw e at v) [ inl i ↦ inl (back x i) | inr u ↦ inr u ]
    | inr e ↦ elim (rw e at v) [ inl i ↦ inl i | inr u ↦ inr (Waits-change m u) ]
  ]

  pub WaitsOff-change :
      (j : ℕ) (m : List Entry)
      → ((e : Entry) → (f e).key ≡ e.key)
      → WaitsOff j (change k f m) w
      → WaitsOff j m w
  WaitsOff-change j [] same v = elim (Bool-cases ((f (blank k)).key == j)) [
    | inl e ↦ rw e at v
    | inr e ↦ elim (rw e at v) [ inl i ↦ back (blank k) i | inr u ↦ u ]
  ]
  WaitsOff-change j (x ∷ m) same v = elim (Bool-cases (x.key == k)) [
    | inl e ↦ elim (off_inv j (f x) m w (rw e at v)) [
      | inl (q, u) ↦ off_at j x m w (sym (same x) ∙ q) u
      | inr (ne, inl i) ↦ off_else j x m w (λ q. ne (same x ∙ q)) (inl (back x i))
      | inr (ne, inr u) ↦ off_else j x m w (λ q. ne (same x ∙ q)) (inr u)
    ]
    | inr e ↦ elim (off_inv j x (change k f m) w (rw e at v)) [
      | inl (q, u) ↦ off_at j x m w q (Waits-change m u)
      | inr (ne, inl i) ↦ off_else j x m w ne (inl i)
      | inr (ne, inr u) ↦ off_else j x m w ne (inr (WaitsOff-change j m same u))
    ]
  ]

-- At the mutex that is changed the rest stays as it was.
pub WaitsOff-change_self :
    (w k : ℕ) (f : Entry → Entry) (m : List Entry)
    → ((e : Entry) → (f e).key ≡ e.key)
    → WaitsOff k (change k f m) w
    → WaitsOff k m w
WaitsOff-change_self w k f [] same v = elim (Bool-cases ((f (blank k)).key == k)) [
  | inl e ↦ rw e at v
  | inr e ↦ absurd (ground (arith, same (blank k), e))
]
WaitsOff-change_self w k f (x ∷ m) same v = elim (Bool-cases (x.key == k)) [
  | inl e ↦ elim (off_inv k (f x) m w (rw e at v)) [
    | inl (q, u) ↦ off_at k x m w (sym (same x) ∙ q) u
    | inr (ne, _) ↦ absurd (ne (same x ∙ ground arith))
  ]
  | inr e ↦ elim (off_inv k x (change k f m) w (rw e at v)) [
    | inl (q, u) ↦ absurd (ground arith)
    | inr (ne, inl i) ↦ off_else k x m w ne (inl i)
    | inr (ne, inr u) ↦ off_else k x m w ne (inr (WaitsOff-change_self w k f m same u))
  ]
]

pub WaitsOff-Waits : (k : ℕ) (m : List Entry) (w : ℕ) → WaitsOff k m w → Waits m w
WaitsOff-Waits k [] w v = v
WaitsOff-Waits k (x ∷ m) w v = elim (Bool-cases (x.key == k)) [
  | inl e ↦ inr (rw e at v)
  | inr e ↦ elim (rw e at v) [ inl i ↦ inl i | inr u ↦ inr (WaitsOff-Waits k m w u) ]
]

-- Once taken off the waiters of `k`, a thread waits where it waited off `k`.
pub Waits-remove_waiter :
    (w k : ℕ) (m : List Entry) → Waits (change k (remove_waiter w) m) w → WaitsOff k m w
Waits-remove_waiter w k [] (inl i) = i
Waits-remove_waiter w k [] (inr v) = v
Waits-remove_waiter w k (x ∷ m) v = elim (Bool-cases (x.key == k)) [
  | inl e ↦
      rw e
        (elim (rw e at v) [ inl i ↦ absurd ((In-remove_elem x.waiters w w i).1 refl) | inr u ↦ u ])
  | inr e ↦ rw e (elim (rw e at v) [ inl i ↦ inl i | inr u ↦ inr (Waits-remove_waiter w k m u) ])
]

-- Between two tables a thread has not begun to wait anywhere, and still waits where it did.
abbrev pub SameFor : ℕ → List Entry → List Entry → Type 0
SameFor w m m' =
    (Waits m' w → Waits m w)
    × ((k : ℕ) → WaitsOff k m' w → WaitsOff k m w)
    × ((k : ℕ) → In w (entry_of k m).waiters → In w (entry_of k m').waiters)

pub change-SameFor :
    (w k : ℕ) (f : Entry → Entry) (m : List Entry)
    → ((e : Entry) → (f e).key ≡ e.key)
    → ((e : Entry) → In w (f e).waiters ↔ In w e.waiters)
    → SameFor w m (change k f m)
change-SameFor w k f m same both = (
  Waits-change w k f (λ e. (both e).0) m,
  λ j. WaitsOff-change w k f (λ e. (both e).0) j m same,
  λ j i.
      rw (entry_of-change k j f m same)
        (elim (Bool-cases (k == j)) [ inl e ↦ rw e ((both (entry_of j m)).1 i) | inr e ↦ rw e i ]),
)

In-append_left : (c : ℕ) (xs ys : List ℕ) → In c xs → In c (xs ++ ys)
In-append_left c (x ∷ xs) ys (inl e) = inl e
In-append_left c (x ∷ xs) ys (inr i) = inr (In-append_left c xs ys i)
In-append_left c [] ys i = absurd i

pub In-snoc_self : (c : ℕ) (xs : List ℕ) → In c (xs ++ c ∷ [])
In-snoc_self c [] = inl refl
In-snoc_self c (x ∷ xs) = inr (In-snoc_self c xs)

In-remove_elem_ne : (xs : List ℕ) (a c : ℕ) → c ≢ a → In c xs → In c (remove_elem xs a)
In-remove_elem_ne [] a c ne i = i
In-remove_elem_ne (x ∷ xs) a c ne i = elim (Bool-cases (x == a)) [
  | inl e ↦
      rw e (elim i [ inl f ↦ absurd (ne (ground arith)) | inr j ↦ In-remove_elem_ne xs a c ne j ])
  | inr e ↦ rw e (elim i [ inl f ↦ inl f | inr j ↦ inr (In-remove_elem_ne xs a c ne j) ])
]

module _ (w t : ℕ) (ne : w ≢ t) (k : ℕ) (m : List Entry) where
  pub add_waiter-SameFor : SameFor w m (change k (add_waiter t) m)
  add_waiter-SameFor =
      change-SameFor w k (add_waiter t) m (λ e. refl)
        (λ e. (
          (λ i. elim (In-snoc t e.waiters w i) [ inl j ↦ j | inr q ↦ absurd (ne q) ]),
          In-append_left w e.waiters (t ∷ []),
        ))

  pub remove_waiter-SameFor : SameFor w m (change k (remove_waiter t) m)
  remove_waiter-SameFor =
      change-SameFor w k (remove_waiter t) m (λ e. refl)
        (λ e. ((λ i. (In-remove_elem e.waiters t w i).0), In-remove_elem_ne e.waiters t w ne))

pub SameFor-trans : (w : ℕ) (m n o : List Entry) → SameFor w m n → SameFor w n o → SameFor w m o
SameFor-trans w m n o (a, b, c) (a', b', c') =
    ((λ v. a (a' v)), (λ k v. b k (b' k v)), λ k i. c' k (c k i))
