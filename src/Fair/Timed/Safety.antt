-- ===== src/Fair/Timed/Safety.antt =====
-- include/fair_mutex.hpp: what interleaved threads rely on in a `timed_mutex`.
use yamc.Common.{
  ◌≤◌, ℕ, ◌≡◌, ◌≢◌, refl, List, [], ◌∷◌, some, inl, inr, sym, subst, get_elem?, set, total,
  total-set, total-get_elem?, total-pair, total-replicate_zero, get_elem?-replicate,
  get_elem?-set_inv, arith, ap,
}
use yamc.Threads.{System, Action, Reach, Reach-inv, Step, turn, failed}
use yamc.Fair.WaitQueue.{Store, locked, request}
use yamc.Fair.WaitQueue.Chain.{Queued}
use yamc.Fair.Timed.{Place, outside, in_lock, in_lock_until, owner, Method, act, init}
use yamc.Fair.Timed.Moves.{Move, Placed, Line}
use yamc.Fair.Timed.Turns.{timed-Moves}
use yamc.Fair.Timed.Lines.{owns, held, Stands, Move-Fresh, Move-In, Move-Stands, Move-Line}

-- The queue is the list `l`, and it holds the requests of the threads that wait, behind `locked_` while
-- a thread owns the mutex.
record Fits (s : System Store Place) (l : List ℕ) : Type 0 where
  queued : Queued s.shared l
  line : Line l
  owned : held l ≡ total owns s.threads
  stands : (i : ℕ) (p : Place) → get_elem? s.threads i ≡ some p → Stands i p l

Stands-other :
    (i j : ℕ) {l l' : List ℕ} {p p' : Place}
    → j ≢ i
    → Move i l p l' p'
    → (r : Place) → Stands j r l
    → Stands j r l'
Stands-other i j ne m outside f = Move-Fresh i (request j) (λ e. ne (omega arith)) (omega arith) m f
Stands-other i j ne m owner f = Move-Fresh i (request j) (λ e. ne (omega arith)) (omega arith) m f
Stands-other i j ne m in_lock f = Move-In i (request j) (λ e. ne (omega arith)) (omega arith) m f
Stands-other i j ne m in_lock_until f =
    Move-In i (request j) (λ e. ne (omega arith)) (omega arith) m f

held_le : (l : List ℕ) → held l ≤ 1
held_le [] = omega arith
held_le (x ∷ xs) = ground arith

held_front : (l : List ℕ) → held l ≢ 0 → (xs : List ℕ) × (l ≡ locked ∷ xs)
held_front [] ne = absurd (ne refl)
held_front (x ∷ xs) ne = (xs, ap (λ y. y ∷ xs) (ground arith))

module _ {s : System Store Place} {l : List ℕ} (v : Fits s l) (i : ℕ) where
  placed : (p : Place) → get_elem? s.threads i ≡ some p → Placed i p l
  placed outside at = v.stands i outside at
  placed in_lock at = v.stands i in_lock at
  placed in_lock_until at = v.stands i in_lock_until at
  placed owner at = held_front l (λ e. ground (arith, v.owned, total-get_elem? owns s.threads i at))

  turn-Fits :
      {p p' : Place} {g : Store} {l' : List ℕ}
      → get_elem? s.threads i ≡ some p
      → Queued g l'
      → Move i l p l' p'
      → Fits (record { shared = g; threads = set s.threads i p' }) l'
  turn-Fits {p} {p'} {l' = l'} at q m = record {
    queued = q;
    line = (Move-Line i m v.line).0;
    owned = omega (
      arith,
      (Move-Line i m v.line).1,
      v.owned,
      total-get_elem? owns s.threads i at,
      total-set owns s.threads i p' at,
    );
    stands = λ j r e. elim (get_elem?-set_inv s.threads i j p' e) [
      | inl (same, f) ↦
          subst (λ k. Stands k r l') same
            (subst (λ x. Stands i x l') (sym f) (Move-Stands i m v.queued.1.1 (v.stands i p at)))
      | inr (ne, f) ↦ Stands-other i j (λ e. ne (sym e)) m r (v.stands j r f)
    ];
  }

abbrev Orderly : System Store Place → Type 0
Orderly s = (l : List ℕ) × Fits s l

Step-Orderly : (s t : System Store Place) → Step act s t → Orderly s → Orderly t
Step-Orderly s t (turn i a {p} {p'} {m} {n} at e) (l, v) =
    elim (timed-Moves i a s.shared l p v.queued v.line (placed v i p at)) [
      | inl out ↦ cc (out, e)
      | inr (g, l', r, k, done, q, mv) ↦
          let same_store : g ≡ m = cc (done, e) in
          let same_place : r ≡ p' = cc (done, e) in
          (
            l',
            turn-Fits v i at (subst (λ h. Queued h l') same_store q)
                (subst (λ x. Move i l p l' x) same_place mv),
          )
    ]

init-Orderly : (n : ℕ) → Orderly (init n)
init-Orderly n = (
  [],
  record {
    queued = (((refl, refl), tt), (tt, tt));
    line = tt;
    owned = sym (total-replicate_zero owns n outside refl);
    stands = λ i p e. subst (λ x. Stands i x []) (sym (get_elem?-replicate n outside i e)) tt;
  },
)

Reach-Orderly : (n : ℕ) {s : System Store Place} → Reach act (init n) s → Orderly s
Reach-Orderly n r = Reach-inv act Orderly Step-Orderly r (init-Orderly n)

-- Any number of threads, in any interleaving, with waits that time out: two threads never own a
-- `timed_mutex` together.
pub timed_mutual_exclusion :
    (n : ℕ) {s : System Store Place}
    → Reach act (init n) s
    → (i j : ℕ) → i ≢ j
    → get_elem? s.threads i ≡ some owner
    → get_elem? s.threads j ≢ some owner
timed_mutual_exclusion n {s} r i j ne at_i at_j =
    let (l, v) = Reach-Orderly n r in
    ground (arith, held_le l, v.owned, total-pair owns s.threads i j at_i at_j ne)

-- Any number of threads, in any interleaving: no turn fails an assertion of `timed_mutex`.
pub timed_no_assertion_fails :
    (n : ℕ) {s : System Store Place}
    → Reach act (init n) s
    → (i : ℕ) (a : Action Method) (p : Place) → get_elem? s.threads i ≡ some p
    → act i a s.shared p ≢ failed
timed_no_assertion_fails n {s} r i a p at e =
    let (l, v) = Reach-Orderly n r in
    elim (timed-Moves i a s.shared l p v.queued v.line (placed v i p at)) [
      | inl out ↦ cc (out, e)
      | inr (g, l', r, k, done, q, mv) ↦ cc (done, e)
    ]
