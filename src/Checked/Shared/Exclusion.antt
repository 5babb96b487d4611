-- ===== src/Checked/Shared/Exclusion.antt =====
-- include/checked_shared_mutex.hpp: any number of threads and mutexes, taking their turns in any order, with
-- any misuse.
use yamc.Common.{
  ℕ, ◌≤◌, ◌<◌, ◌≡◌, ◌+◌, refl, some, List, [], ◌∷◌, inl, inr, eq_or_ne, ◌==◌, arith, subst, sym,
  total, others, total-get_elem?, total-set, true, false, total-replicate_zero, total-le-length,
  length, length-set, length-replicate, get_elem?, set, get_elem?-set_inv, get_elem?-lt-length,
  get_elem?-replicate,
}
use yamc.Threads.{moved, Action, System, turn, Reach, start, later, Notice}
use yamc.RwLock.Policy.{Policy, Lawful, max_count}
use yamc.Validator.{Validator}
use yamc.Checked.Shared.{shared_mutex}
use yamc.Checked.Shared.Members.{Members}
use yamc.Checked.Shared.Places.{Mutexes, load, Place, outside, Method, act, init, construct}
use yamc.Checked.Shared.Ends.{Held}
use yamc.Checked.Shared.Turns.{waits, leaves, stays, target, Fits, Fits-other, Kept}
use yamc.Checked.Shared.Acts.{act-Kept}

-- How many turns of a run were taken by a thread whose last call, a `lock` of mutex `k`, had thrown
-- `deadlock`. That call stays counted as a writer that waits.
unfoldable pub leaks :
    {State V : Type 0} (P : Policy State) (W : Validator V) {s t : System (Mutexes State V) Place}
    → ℕ
    → Reach (act P W) s t
    → ℕ
leaks P W k start = 0
leaks P W k (later r (turn i a {p} at e)) = leaks P W k r + leaves k p

module _ {State V : Type 0} {P : Policy State} {Rep : State → ℕ → ℕ → ℕ → Type 0} (L : Lawful P Rep)
    (W : Validator V) (n : ℕ) where
  -- The policy of each mutex counts its owners, the threads that wait to write, and those left counted.
  pub record Inv (c : ℕ → ℕ) (s : System (Mutexes State V) Place) : Type 0 where
    pub held : (k : ℕ) → Held Rep n (total (waits k) s.threads + c k) (load k s.shared)
    pub fits : (i : ℕ) (p : Place) → get_elem? s.threads i ≡ some p → Fits i p s.shared
    pub size : length s.threads ≡ n

  waits-le-one : (k : ℕ) (p : Place) → waits k p ≤ 1
  waits-le-one k p = ground arith

  split : (k : ℕ) (p : Place) → waits k p ≡ leaves k p + stays k p
  split k p = ground arith

  module _ (c : ℕ → ℕ) (s : System (Mutexes State V) Place) (v : Inv c s)
      (few : (k : ℕ) → n + c k < max_count) (i : ℕ) {p : Place}
      (at : get_elem? s.threads i ≡ some p) where
    -- What counts as a writer that waits, without the turn of thread `i`.
    abbrev pub rest : ℕ → ℕ
    rest k = others (waits k) s.threads i + (c k + leaves k p)

    rest-counts : (k : ℕ) → total (waits k) s.threads + c k ≡ rest k + stays k p
    rest-counts k = omega (arith, split k p, total-get_elem? (waits k) s.threads i at)

    rest-lt : (k : ℕ) → rest k < max_count
    rest-lt k =
        omega (
          arith,
          rest-counts k,
          few k,
          v.size,
          total-le-length (waits k) (waits-le-one k) s.threads,
        )

    pub turn-Kept :
        (a : Action Method) → Kept Rep W n (target a p) rest i s.shared (act P W i a s.shared p)
    turn-Kept a =
        act-Kept L W n (omega (arith, few 0)) i
          (omega (arith, v.size, get_elem?-lt-length s.threads i at)) rest rest-lt s.shared a p
          (λ k. subst (λ x. Held Rep n x (load k s.shared)) (rest-counts k) (v.held k))
          (v.fits i p at)

    pub moved-Inv :
        (a : Action Method) {p' : Place} {m : Mutexes State V} {h : Notice}
        → act P W i a s.shared p ≡ moved m p' h
        → Inv (λ k. c k + leaves k p) (record { shared = m; threads = set s.threads i p' })
    moved-Inv a {p'} {m} e =
        let (held, here, grows) =
          subst (Kept Rep W n (target a p) rest i s.shared) e (turn-Kept a) in
        record {
          held = λ k.
              subst (λ x. Held Rep n x (load k m))
                (omega (arith, total-set (waits k) s.threads i p' at)) (held k);
          fits = λ j q at'. elim (get_elem?-set_inv s.threads i j p' at') [
            | inl (same, now) ↦
                subst (λ x. Fits x q m) same (subst (λ x. Fits i x m) (sym now) here)
            | inr (ne, before) ↦
                Fits-other i j s.shared m (λ same. ne (sym same)) grows q (v.fits j q before)
          ];
          size = omega (arith, length-set s.threads i p', v.size);
        }

  construct-Held : (v : V) (ks : List ℕ) (k : ℕ) → Held Rep n 0 (load k (construct P W v ks))
  unfolding construct shared_mutex
  construct-Held v [] k = (L.initial_rep, inl refl, tt)
  construct-Held v (j ∷ ks) k = elim (eq_or_ne j k) [
    | inl e ↦ let at : (j == k) ≡ true = ground arith in rw at (L.initial_rep, inl refl, tt)
    | inr ne ↦ let off : (j == k) ≡ false = ground arith in rw off (construct-Held v ks k)
  ]

  init-Inv : (v : V) (ks : List ℕ) → Inv (λ k. 0) (init P W v ks n)
  unfolding init
  init-Inv v ks = record {
    held = λ k.
        subst (λ x. Held Rep n x (load k (construct P W v ks)))
          (omega (arith, total-replicate_zero (waits k) n outside refl)) (construct-Held v ks k);
    fits = λ i p at.
        subst (λ q. Fits i q (construct P W v ks)) (sym (get_elem?-replicate n outside i at)) tt;
    size = length-replicate n outside;
  }

  pub Reach-Inv :
      (v : V) (ks : List ℕ) {s : System (Mutexes State V) Place}
      → (r : Reach (act P W) (init P W v ks n) s) → ((k : ℕ) → n + leaks P W k r < max_count)
      → Inv (λ k. leaks P W k r) s
  unfolding leaks
  Reach-Inv v ks start few = init-Inv v ks
  Reach-Inv v ks (later {t} r (turn i a at e)) few =
      let before : (k : ℕ) → n + leaks P W k r < max_count = λ k. omega (arith, few k) in
      moved-Inv (λ k. leaks P W k r) t (Reach-Inv v ks r before) before i at a e
