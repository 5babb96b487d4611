-- ===== src/Fair/Shared/Runs.antt =====
-- include/fair_shared_mutex.hpp: any number of threads at a `shared_timed_mutex`, taking their turns in any
-- order.
use yamc.Common.{
  ℕ, ◌^◌, ◌<◌, ◌≤◌, ◌≡◌, refl, inl, inr, sym, subst, Bool, List, [], length, some, get_elem?, set,
  total, total-set, total-get_elem?, total-le-length, total-replicate_zero, length-set,
  length-replicate, get_elem?-set_inv, get_elem?-set_self, get_elem?-set_ne, get_elem?-replicate,
  eq_or_ne, ◌∙◌, arith,
}
use yamc.Threads.{System, Action, Step, turn, Reach, Reach-inv}
use yamc.Fair.WaitQueue.{Store, request}
use yamc.Fair.WaitQueue.Chain.{In}
use yamc.Fair.Shared.Places.{Place, outside, shared_owner, Method, act, init}
use yamc.Fair.Shared.Line.{Held, free, Shape}
use yamc.Fair.Shared.Hold.{count}
use yamc.Fair.Shared.Turns.{owns, shares, waits, owned, Stands, Kept, TurnKept, Ready}
use yamc.Fair.Shared.Acts.{act-TurnKept}
use yamc.Fair.Shared.Standing.{shares-le, waits-le, waiting, other-Stands}

-- The threads of a state, as its queue and its lock node count them.
pub record Counted (n : ℕ) (ts : List Place) (held : Held) (l : List ℕ) : Type 0 where
  pub owners : total owns ts ≡ owned held
  pub sharers : total shares ts ≡ count held
  pub waiters : total waits ts ≡ length l
  pub number : length ts ≡ n

pub record Inv (n : ℕ) (s : System Store Place) (held : Held) (l : List ℕ) : Type 0 where
  pub shape : Shape s.shared held l
  pub stands : (i : ℕ) (p : Place) → get_elem? s.threads i ≡ some p → Stands i p s.shared.status l
  pub counts : Counted n s.threads held l
  pub found :
      (c : ℕ)
      → In c l
      → (i : ℕ) × (p : Place) × (get_elem? s.threads i ≡ some p) × (c ≡ request i) × (waits p ≡ 1)

module _ (n : ℕ) {s : System Store Place} {held : Held} {l : List ℕ} (v : Inv n s held l) (i : ℕ)
    {p : Place} (at : get_elem? s.threads i ≡ some p) where
  pub Inv-Ready : n < 2 ^ 62 → Ready i s.shared held l p
  Inv-Ready few = record {
    shape = v.shape;
    stands = v.stands i p at;
    may_own = omega (arith, v.counts.owners, total-get_elem? owns s.threads i at);
    may_share = omega (arith, v.counts.sharers, total-get_elem? shares s.threads i at);
    room = λ z. omega (
      arith,
      few,
      z,
      v.counts.number,
      v.counts.sharers,
      total-get_elem? shares s.threads i at,
      total-set shares s.threads i shared_owner at,
      total-le-length shares shares-le (set s.threads i shared_owner),
      length-set s.threads i shared_owner,
    );
  }

  pub short_line : length l ≤ n
  short_line =
      omega (arith, v.counts.waiters, v.counts.number, total-le-length waits waits-le s.threads)

  turn-Counted :
      {h' : Store} {held' : Held} {l' : List ℕ} {p' : Place}
      → Kept i s.shared held l p h' held' l' p'
      → Counted n (set s.threads i p') held' l'
  turn-Counted {p' = p'} k = record {
    owners = omega (
      arith,
      k.owning,
      v.counts.owners,
      total-get_elem? owns s.threads i at,
      total-set owns s.threads i p' at,
    );
    sharers = omega (
      arith,
      k.sharing,
      v.counts.sharers,
      total-get_elem? shares s.threads i at,
      total-set shares s.threads i p' at,
    );
    waiters = omega (
      arith,
      k.queueing,
      v.counts.waiters,
      total-get_elem? waits s.threads i at,
      total-set waits s.threads i p' at,
    );
    number = length-set s.threads i p' ∙ v.counts.number;
  }

  turn-Stands :
      {h' : Store} {held' : Held} {l' : List ℕ} {p' : Place}
      → Kept i s.shared held l p h' held' l' p'
      → (j : ℕ) (r : Place) → get_elem? (set s.threads i p') j ≡ some r
      → Stands j r h'.status l'
  turn-Stands {h'} {l' = l'} {p' = p'} k j r e = elim (get_elem?-set_inv s.threads i j p' e) [
    | inl (same, f) ↦
        subst (λ m. Stands m r h'.status l') same
          (subst (λ q. Stands i q h'.status l') (sym f) k.mine)
    | inr (ne, f) ↦ other-Stands i j k (λ q. ne (omega (arith, q))) r (v.stands j r f)
  ]

  turn-found :
      {h' : Store} {held' : Held} {l' : List ℕ} {p' : Place}
      → Kept i s.shared held l p h' held' l' p'
      → (c : ℕ) → In c l'
      → (j : ℕ) × (q : Place) × (get_elem? (set s.threads i p') j ≡ some q)
        × (c ≡ request j)
        × (waits q ≡ 1)
  turn-found {h'} {l' = l'} {p' = p'} k c there = elim (eq_or_ne c (request i)) [
    | inl mine ↦ (
      i,
      p',
      get_elem?-set_self s.threads i p' at,
      mine,
      waiting i p' h'.status l' k.mine (subst (λ d. In d l') mine there),
    )
    | inr ne ↦
        let (j, q, f, e, w) = v.found c ((k.stays c ne).1 there) in
        (j, q, get_elem?-set_ne s.threads i j p' (λ x. ne (rw x e)) ∙ f, e, w)
  ]

  pub turn-Inv :
      {h' : Store} {held' : Held} {l' : List ℕ} {p' : Place}
      → Kept i s.shared held l p h' held' l' p'
      → Inv n (record { shared = h'; threads = set s.threads i p' }) held' l'
  turn-Inv k = record {
    shape = k.shape;
    stands = turn-Stands k;
    counts = turn-Counted k;
    found = turn-found k;
  }

init-Inv : (n : ℕ) → Inv n (init n) free []
init-Inv n = record {
  shape = record {
    queued = (((refl, refl), tt), (tt, tt));
    lock_node = tt;
    ordered = tt;
    requests = λ c j. absurd j;
  };
  stands = λ i p e.
      subst (λ x. Stands i x (init n).shared.status []) (sym (get_elem?-replicate n outside i e))
        (λ j. j);
  counts = record {
    owners = total-replicate_zero owns n outside refl;
    sharers = total-replicate_zero shares n outside refl;
    waiters = total-replicate_zero waits n outside refl;
    number = length-replicate n outside;
  };
  found = λ c j. absurd j;
}

abbrev pub Orderly : ℕ → System Store Place → Type 0
Orderly n s = (held : Held) × (l : List ℕ) × Inv n s held l

module _ (n fuel : ℕ) (phased : Bool) (few : n < 2 ^ 62) (enough : n < fuel) where
  -- What a turn of thread `i` leaves.
  pub turn-TurnKept :
      {s : System Store Place} {held : Held} {l : List ℕ} (v : Inv n s held l) (i : ℕ)
      (a : Action Method) {p : Place} (at : get_elem? s.threads i ≡ some p)
      → TurnKept i s.shared held l p (act fuel phased i a s.shared p)
  turn-TurnKept {s} {held} {l} v i a {p} at =
      act-TurnKept fuel phased i a s.shared held l p (Inv-Ready n v i at few)
        (omega (arith, short_line n v i at, enough))

  Step-Orderly : (s t : System Store Place) → Step (act fuel phased) s t → Orderly n s → Orderly n t
  Step-Orderly s t (turn i a {p} at e) (held, l, v) =
      let (held', l', k, told) = subst (TurnKept i s.shared held l p) e (turn-TurnKept v i a at) in
      (held', l', turn-Inv n v i at k)

  pub Reach-Orderly : {s : System Store Place} → Reach (act fuel phased) (init n) s → Orderly n s
  Reach-Orderly r = Reach-inv (act fuel phased) (Orderly n) Step-Orderly r (free, [], init-Inv n)
