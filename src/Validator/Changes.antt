-- ===== src/Validator/Changes.antt =====
-- include/yamc_lock_validator.hpp: which waits a member adds to the table.
use yamc.Common.{ℕ, ◌≡◌, refl, List, [], ◌∷◌, ◌⊎◌, inl, inr, Bool-cases, subst, ◌==◌, arith, ◌+◌}
use yamc.Fair.WaitQueue.Chain.{In, In-snoc}
use yamc.Validator.{
  remove_owner, add_waiter, add_owner, remove_waiter, fresh, Entry, Table, change, erase, ctor,
  dtor, locked, unlocked, dequeue, push_waiter,
}
use yamc.Validator.WaitsFor.{BlocksBut, BlocksBut-Blocks, Blocks, Owns, Waits, In-remove_elem}

-- `e` is `mutexmap[k]`.
abbrev EntryIn : Entry → List Entry → Type 0
EntryIn e [] = ⊥
EntryIn e (x ∷ xs) = (e ≡ x) ⊎ EntryIn e xs

abbrev blank : ℕ → Entry
blank k = record { key = k; mid = 0; owners = []; waiters = [] }

abbrev At : ℕ → Entry → List Entry → Type 0
At k e m = (e ≡ blank k) ⊎ ((e.key ≡ k) × EntryIn e m)

At-later : (k : ℕ) (e x : Entry) (m : List Entry) → At k e m → At k e (x ∷ m)
At-later k e x m (inl b) = inl b
At-later k e x m (inr (q, i)) = inr (q, inr i)

change-Blocks :
    (k : ℕ) (f : Entry → Entry) (m : List Entry) (t w : ℕ)
    → Blocks (change k f m) t w
    → Blocks m t w ⊎ ((e : Entry) × At k e m × In t (f e).owners × In w (f e).waiters)
change-Blocks k f [] t w (inl (o, i)) = inr (blank k, inl refl, o, i)
change-Blocks k f [] t w (inr b) = absurd b
change-Blocks k f (x ∷ m) t w b = elim (Bool-cases (x.key == k)) [
  | inl at ↦ elim (rw at at b) [
    | inl (o, i) ↦ inr (x, inr ((ground arith), inl refl), o, i)
    | inr c ↦ inl (inr c)
  ]
  | inr off ↦ elim (rw off at b) [
    | inl c ↦ inl (inl c)
    | inr c ↦ elim (change-Blocks k f m t w c) [
      | inl d ↦ inl (inr d)
      | inr (e, at, o, i) ↦ inr (e, At-later k e x m at, o, i)
    ]
  ]
]

EntryIn-Owns :
    (k : ℕ) (e : Entry) (m : List Entry) (t : ℕ)
    → e.key ≡ k
    → EntryIn e m
    → In t e.owners
    → Owns k m t
EntryIn-Owns k e [] t q i o = absurd i
EntryIn-Owns k e (x ∷ m) t q (inl f) o = inl (subst (λ y. (y.key ≡ k) × In t y.owners) f (q, o))
EntryIn-Owns k e (x ∷ m) t q (inr i) o = inr (EntryIn-Owns k e m t q i o)

EntryIn-Waits : (e : Entry) (m : List Entry) (w : ℕ) → EntryIn e m → In w e.waiters → Waits m w
EntryIn-Waits e [] w i j = absurd i
EntryIn-Waits e (x ∷ m) w (inl f) j = inl (subst (λ y. In w y.waiters) f j)
EntryIn-Waits e (x ∷ m) w (inr i) j = inr (EntryIn-Waits e m w i j)

EntryIn-Blocks :
    (e : Entry) (m : List Entry) (t w : ℕ)
    → EntryIn e m
    → In t e.owners
    → In w e.waiters
    → Blocks m t w
EntryIn-Blocks e [] t w i o j = absurd i
EntryIn-Blocks e (x ∷ m) t w (inl f) o j =
    inl (subst (λ y. In t y.owners × In w y.waiters) f (o, j))
EntryIn-Blocks e (x ∷ m) t w (inr i) o j = inr (EntryIn-Blocks e m t w i o j)

module _ (k : ℕ) (e : Entry) (m : List Entry) where
  At-Owns : (t : ℕ) → At k e m → In t e.owners → Owns k m t
  At-Owns t (inl b) o = absurd (subst (λ y. In t y.owners) b o)
  At-Owns t (inr (q, i)) o = EntryIn-Owns k e m t q i o

  At-Waits : (w : ℕ) → At k e m → In w e.waiters → Waits m w
  At-Waits w (inl b) j = absurd (subst (λ y. In w y.waiters) b j)
  At-Waits w (inr (q, i)) j = EntryIn-Waits e m w i j

  At-Blocks : (t w : ℕ) → At k e m → In t e.owners → In w e.waiters → Blocks m t w
  At-Blocks t w (inl b) o j = absurd (subst (λ y. In t y.owners) b o)
  At-Blocks t w (inr (q, i)) o j = EntryIn-Blocks e m t w i o j

module _ (k : ℕ) (s : Table) (t w : ℕ) where
  module _ (tid : ℕ) where
    -- `enqueue` makes the owners of the mutex block the thread.
    pub push_waiter-Blocks :
        Blocks (push_waiter k tid s).mutexmap t w
        → Blocks s.mutexmap t w ⊎ ((w ≡ tid) × Owns k s.mutexmap t)
    push_waiter-Blocks b = elim (change-Blocks k (add_waiter tid) s.mutexmap t w b) [
      | inl c ↦ inl c
      | inr (e, at, o, i) ↦ elim (In-snoc tid e.waiters w i) [
        | inl j ↦ inl (At-Blocks k e s.mutexmap t w at o j)
        | inr q ↦ inr (q, At-Owns k e s.mutexmap t at o)
      ]
    ]

    -- `locked` makes the thread block those that wait for the mutex.
    pub locked-Blocks :
        Blocks (locked k tid s).mutexmap t w
        → Blocks s.mutexmap t w ⊎ ((t ≡ tid) × Waits s.mutexmap w)
    unfolding locked
    locked-Blocks b = elim (change-Blocks k (add_owner tid) s.mutexmap t w b) [
      | inl c ↦ inl c
      | inr (e, at, o, i) ↦ elim (In-snoc tid e.owners t o) [
        | inl j ↦ inl (At-Blocks k e s.mutexmap t w at j i)
        | inr q ↦ inr (q, At-Waits k e s.mutexmap w at i)
      ]
    ]

    pub unlocked-Blocks : Blocks (unlocked k tid s).mutexmap t w → Blocks s.mutexmap t w
    unfolding unlocked
    unlocked-Blocks b = elim (change-Blocks k (remove_owner tid) s.mutexmap t w b) [
      | inl c ↦ c
      | inr (e, at, o, i) ↦ At-Blocks k e s.mutexmap t w at (In-remove_elem e.owners tid t o).0 i
    ]

    pub dequeue-Blocks : Blocks (dequeue k tid s).mutexmap t w → Blocks s.mutexmap t w
    unfolding dequeue
    dequeue-Blocks b = elim (change-Blocks k (remove_waiter tid) s.mutexmap t w b) [
      | inl c ↦ c
      | inr (e, at, o, i) ↦ At-Blocks k e s.mutexmap t w at o (In-remove_elem e.waiters tid w i).0
    ]

  pub ctor-Blocks : Blocks (ctor k s).mutexmap t w → Blocks s.mutexmap t w
  unfolding ctor
  ctor-Blocks b = elim (change-Blocks k (fresh (s.counter + 1)) s.mutexmap t w b) [
    | inl c ↦ c
    | inr (e, at, o, i) ↦ absurd o
  ]

erase-Blocks : (k : ℕ) (m : List Entry) (t w : ℕ) → Blocks (erase k m) t w → Blocks m t w
erase-Blocks k [] t w b = b
erase-Blocks k (x ∷ m) t w b = elim (Bool-cases (x.key == k)) [
  | inl at ↦ inr (rw at at b)
  | inr off ↦ elim (rw off at b) [ inl c ↦ inl c | inr c ↦ inr (erase-Blocks k m t w c) ]
]

pub dtor-Blocks :
    (k : ℕ) (s : Table) (t w : ℕ) → Blocks (dtor k s).mutexmap t w → Blocks s.mutexmap t w
unfolding dtor
dtor-Blocks k s t w b = erase-Blocks k s.mutexmap t w b

-- A wait that `enqueue` adds is at the mutex itself.
pub push_waiter-BlocksBut :
    (k tid : ℕ) (m : List Entry) (t w : ℕ)
    → BlocksBut k (change k (add_waiter tid) m) t w
    → Blocks m t w
push_waiter-BlocksBut k tid [] t w (inl (ne, o, i)) = absurd (ne refl)
push_waiter-BlocksBut k tid [] t w (inr b) = absurd b
push_waiter-BlocksBut k tid (x ∷ m) t w b = elim (Bool-cases (x.key == k)) [
  | inl at ↦ elim (rw at at b) [
    | inl (ne, o, i) ↦ absurd (ne (ground arith))
    | inr c ↦ inr (BlocksBut-Blocks k m t w c)
  ]
  | inr off ↦ elim (rw off at b) [
    | inl (ne, o, i) ↦ inl (o, i)
    | inr c ↦ inr (push_waiter-BlocksBut k tid m t w c)
  ]
]
