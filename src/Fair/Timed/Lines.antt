-- ===== src/Fair/Timed/Lines.antt =====
-- include/fair_mutex.hpp: what interleaved threads rely on in a `timed_mutex`.
use yamc.Common.{
  ℕ, ◌+◌, ◌≡◌, ◌≢◌, refl, List, [], ◌∷◌, ◌++◌, arith, ◌==◌, if◌then◌else◌, ◌⊎◌, inl, inr,
}
use yamc.Fair.WaitQueue.{locked, request}
use yamc.Fair.WaitQueue.Chain.{Fresh, In, Fresh-append, Distinct, Distinct-out}
use yamc.Fair.Timed.{Place, outside, in_lock, in_lock_until, owner}
use yamc.Fair.Timed.Moves.{
  Move, enters, queues, queues_until, finds_locked, takes, takes_until, waits, waits_until,
  gives_up, leaves, Line,
}

abbrev pub owns : Place → ℕ
owns owner = 1
owns _ = 0

-- Whether the lock node is at the front.
abbrev pub held : List ℕ → ℕ
held [] = 0
held (x ∷ xs) = if x == locked then 1 else 0

-- Only the request of a thread that waits is in the queue.
abbrev pub Stands : ℕ → Place → List ℕ → Type 0
Stands i outside l = Fresh (request i) l
Stands i in_lock l = In (request i) l
Stands i in_lock_until l = In (request i) l
Stands i owner l = Fresh (request i) l

In-append : (c : ℕ) (xs ys : List ℕ) → (In c xs ⊎ In c ys) → In c (xs ++ ys)
In-append c [] ys (inl j) = absurd j
In-append c [] ys (inr j) = j
In-append c (x ∷ xs) ys (inl (inl e)) = inl e
In-append c (x ∷ xs) ys (inl (inr j)) = inr (In-append c xs ys (inl j))
In-append c (x ∷ xs) ys (inr j) = inr (In-append c xs ys (inr j))

In-drop : (c x : ℕ) (us ys : List ℕ) → c ≢ x → In c (us ++ x ∷ ys) → In c (us ++ ys)
In-drop c x [] ys ne (inl e) = absurd (ne e)
In-drop c x [] ys ne (inr j) = j
In-drop c x (u ∷ us) ys ne (inl e) = inl e
In-drop c x (u ∷ us) ys ne (inr j) = inr (In-drop c x us ys ne j)

Fresh-drop : (c x : ℕ) (us ys : List ℕ) → Fresh c (us ++ x ∷ ys) → Fresh c (us ++ ys)
Fresh-drop c x us ys f =
    let (a, b) = (Fresh-append c us (x ∷ ys)).0 f in (Fresh-append c us ys).1 (a, b.1)

Fresh-snoc : (c x : ℕ) (xs : List ℕ) → Fresh c xs → c ≢ x → Fresh c (xs ++ x ∷ [])
Fresh-snoc c x xs f ne = (Fresh-append c xs (x ∷ [])).1 (f, (ne, tt))

-- The node of another thread stays where it was, in the queue or out of it.
module _ (i c : ℕ) (other : c ≢ request i) (node : c ≢ locked) where
  pub Move-Fresh : {l l' : List ℕ} {p p' : Place} → Move i l p l' p' → Fresh c l → Fresh c l'
  Move-Fresh enters f = (node, tt)
  Move-Fresh (queues x xs) f = Fresh-snoc c (request i) (x ∷ xs) f other
  Move-Fresh (queues_until x xs) f = Fresh-snoc c (request i) (x ∷ xs) f other
  Move-Fresh (finds_locked x xs) f = f
  Move-Fresh (takes xs) f = (node, f.1)
  Move-Fresh (takes_until xs) f = (node, f.1)
  Move-Fresh (waits x xs ne) f = f
  Move-Fresh (waits_until x xs ne) f = f
  Move-Fresh (gives_up x us ys) f = Fresh-drop c (request i) (x ∷ us) ys f
  Move-Fresh (leaves xs) f = f.1

  pub Move-In : {l l' : List ℕ} {p p' : Place} → Move i l p l' p' → In c l → In c l'
  Move-In enters j = absurd j
  Move-In (queues x xs) j = In-append c (x ∷ xs) (request i ∷ []) (inl j)
  Move-In (queues_until x xs) j = In-append c (x ∷ xs) (request i ∷ []) (inl j)
  Move-In (finds_locked x xs) j = j
  Move-In (takes xs) (inl e) = absurd (other e)
  Move-In (takes xs) (inr j) = inr j
  Move-In (takes_until xs) (inl e) = absurd (other e)
  Move-In (takes_until xs) (inr j) = inr j
  Move-In (waits x xs ne) j = j
  Move-In (waits_until x xs ne) j = j
  Move-In (gives_up x us ys) j = In-drop c (request i) (x ∷ us) ys other j
  Move-In (leaves xs) (inl e) = absurd (node e)
  Move-In (leaves xs) (inr j) = j

-- The thread that moves stands where the new list says, and the lock node counts the owners.
pub Move-Stands :
    (i : ℕ) {l l' : List ℕ} {p p' : Place}
    → Move i l p l' p'
    → Distinct l
    → Stands i p l
    → Stands i p' l'
Move-Stands i enters d f = (omega arith, tt)
Move-Stands i (queues x xs) d f = In-append (request i) (x ∷ xs) (request i ∷ []) (inr (inl refl))
Move-Stands i (queues_until x xs) d f =
    In-append (request i) (x ∷ xs) (request i ∷ []) (inr (inl refl))
Move-Stands i (finds_locked x xs) d f = f
Move-Stands i (takes xs) d j = (omega arith, d.0)
Move-Stands i (takes_until xs) d j = (omega arith, d.0)
Move-Stands i (waits x xs ne) d j = j
Move-Stands i (waits_until x xs ne) d j = j
Move-Stands i (gives_up x us ys) d j = Distinct-out (x ∷ us) (request i) ys d
Move-Stands i (leaves xs) d f = f.1

not_held : (xs : List ℕ) → Fresh locked xs → held xs ≡ 0
not_held [] f = refl
not_held (x ∷ xs) f = ground arith

pub Move-Line :
    (i : ℕ) {l l' : List ℕ} {p p' : Place}
    → Move i l p l' p'
    → Line l
    → Line l' × (held l' + owns p ≡ held l + owns p')
Move-Line i enters v = (tt, refl)
Move-Line i (queues x xs) v = (Fresh-snoc locked (request i) xs v (omega arith), refl)
Move-Line i (queues_until x xs) v = (Fresh-snoc locked (request i) xs v (omega arith), refl)
Move-Line i (finds_locked x xs) v = (v, refl)
Move-Line i (takes xs) v = (v, ground arith)
Move-Line i (takes_until xs) v = (v, ground arith)
Move-Line i (waits x xs ne) v = (v, refl)
Move-Line i (waits_until x xs ne) v = (v, refl)
Move-Line i (gives_up x us ys) v = (Fresh-drop locked (request i) us ys v, refl)
Move-Line i (leaves []) v = (tt, refl)
Move-Line i (leaves (x ∷ xs)) v = (v.1, ground arith)
