-- ===== src/Fair/Ticket/Line.antt =====
-- include/fair_mutex.hpp: the queue of threads that `yamc::fair::mutex` stands for, and how a thread
-- joins it, takes the lock at its front, and leaves it.
use yamc.Common.{
  subst, ◌∙◌, get_elem?-lt-length, ap, get_elem?-set_inv, ℕ, zero, suc, ◌+◌, ◌%◌, ◌<◌, ◌≡◌, ◌≢◌,
  refl, ◌⊎◌, inl, inr, List, [], ◌∷◌, ◌++◌, some, get_elem?, set, length, length-append, length-set,
  total, total-get_elem?, total-set, total-le-length, get_elem?-set_self, get_elem?-set_ne,
  get_elem?-snoc, get_elem?-append_left, get_elem?-snoc_last, size_mod, arith,
}
use native.Mathlib.Decide.{ℕ_discrete}
use yamc.Threads.{System}
use yamc.Fair.Ticket.{Mutex, Place, outside, in_lock, owner}

-- The specification: the threads that hold or want the lock, in the order in which they came. The
-- first of them has the lock or may take it.
pub data Serve (line : List ℕ) : List ℕ → Type 0 where
  stay : Serve line line
  join : (i : ℕ) → Serve line (line ++ i ∷ [])
  leave : (i : ℕ) {rest : List ℕ} → line ≡ i ∷ rest → Serve line rest

abbrev pub inside : Place → ℕ
inside outside = 0
inside _ = 1

-- The thread in the line's place `d` has the ticket that is served after `d` unlocks.
abbrev pub At : System Mutex Place → ℕ → ℕ → Type 0
At s d i =
    (get_elem? s.threads i ≡ some (in_lock ((s.shared.curr + d) % size_mod)))
    ⊎ ((d ≡ 0) × (get_elem? s.threads i ≡ some owner))

pub record Stands (s : System Mutex Place) (line : List ℕ) : Type 0 where
  pub next_ticket : s.shared.next ≡ (s.shared.curr + length line) % size_mod
  pub word : s.shared.curr < size_mod
  pub few : length s.threads < size_mod
  pub all_in : total inside s.threads ≡ length line
  pub at : (d i : ℕ) → get_elem? line d ≡ some i → At s d i
  pub found :
      (i : ℕ) (p : Place)
      → get_elem? s.threads i ≡ some p
      → (p ≡ outside) ⊎ ((d : ℕ) × (get_elem? line d ≡ some i))

module _ {s : System Mutex Place} {line : List ℕ} (v : Stands s line) where
  pub short : length line < size_mod
  short = omega (arith, v.all_in, v.few, total-le-length inside (λ p. ground arith) s.threads)

  -- No thread stands twice in the line.
  pub once : (d e i : ℕ) → get_elem? line d ≡ some i → get_elem? line e ≡ some i → d ≡ e
  once d e i p q = ground (
    arith,
    v.at d i p,
    v.at e i q,
    get_elem?-lt-length line d p,
    get_elem?-lt-length line e q,
    short,
  )

  pub owner_first :
      (i d : ℕ) → get_elem? s.threads i ≡ some owner → get_elem? line d ≡ some i → d ≡ 0
  owner_first i d p q = ground (arith, v.at d i q)

  -- The owner stands in front.
  pub owner_front : (i : ℕ) → get_elem? s.threads i ≡ some owner → get_elem? line 0 ≡ some i
  owner_front i p = elim (v.found i owner p) [
    | inl out ↦ cc
    | inr (d, q) ↦ subst (λ k. get_elem? line k ≡ some i) (owner_first i d p q) q
  ]

  absent : (i d : ℕ) → get_elem? s.threads i ≡ some outside → get_elem? line d ≡ some i → ⊥
  absent i d p q = ground (arith, v.at d i q)

  module _ (i : ℕ) (p' : Place) where
    unfoldable pub joined : System Mutex Place
    joined = record {
      shared = record { next = (s.shared.next + 1) % size_mod; curr = s.shared.curr };
      threads = set s.threads i p';
    }

    -- The place of a thread that was in the line.
    joined-At :
        get_elem? s.threads i ≡ some outside → (d j : ℕ) → get_elem? line d ≡ some j → At joined d j
    unfolding joined
    joined-At here d j e =
        let ne : i ≢ j = λ q. absent i d here (ground arith) in
        rw (get_elem?-set_ne s.threads i j p' ne) (v.at d j e)

    pub Stands-join :
        get_elem? s.threads i ≡ some outside
        → (p' ≡ in_lock s.shared.next) ⊎ ((length line ≡ 0) × (p' ≡ owner))
        → Stands joined (line ++ i ∷ [])
    unfolding joined
    Stands-join here new = record {
      next_ticket = ground (arith, v.next_ticket, length-append line (i ∷ []));
      word = v.word;
      few = omega (arith, length-set s.threads i p', v.few);
      all_in = ground (
        arith,
        v.all_in,
        length-append line (i ∷ []),
        total-set inside s.threads i p' here,
        total-get_elem? inside s.threads i here,
      );
      at = λ d j e. elim (get_elem?-snoc line i d e) [
        | inl old ↦ joined-At here d j old
        | inr (last, self) ↦ ground (arith, v.next_ticket, get_elem?-set_self s.threads i p' here)
      ];
      found = λ j p e. elim (get_elem?-set_inv s.threads i j p' e) [
        | inl (self, _) ↦ inr (length line, rw (← self) (get_elem?-snoc_last line i))
        | inr (_, old) ↦ elim (v.found j p old) [
          | inl out ↦ inl out
          | inr (d, q) ↦ inr (d, get_elem?-append_left line (i ∷ []) d q)
        ]
      ];
    }

  module _ (i : ℕ) where
    unfoldable pub entered : System Mutex Place
    entered = record s { threads = set s.threads i owner }

    pub Stands-enter : get_elem? s.threads i ≡ some (in_lock s.shared.curr) → Stands entered line
    unfolding entered
    Stands-enter here = record {
      next_ticket = v.next_ticket;
      word = v.word;
      few = omega (arith, length-set s.threads i owner, v.few);
      all_in = ground (
        arith,
        v.all_in,
        total-set inside s.threads i owner here,
        total-get_elem? inside s.threads i here,
      );
      at = λ d j e. elim (ℕ_discrete i j) [
        | yes self ↦ ground (
          arith,
          v.at d j e,
          v.word,
          short,
          get_elem?-lt-length line d e,
          get_elem?-set_self s.threads i owner here,
        )
        | no ne ↦ rw (get_elem?-set_ne s.threads i j owner ne) (v.at d j e)
      ];
      found = λ j p e. elim (get_elem?-set_inv s.threads i j owner e) [
        | inl (self, _) ↦ ground (arith, v.found i (in_lock s.shared.curr) here)
        | inr (_, old) ↦ v.found j p old
      ];
    }

    unfoldable pub left : System Mutex Place
    left = record {
      shared = record { next = s.shared.next; curr = (s.shared.curr + 1) % size_mod };
      threads = set s.threads i outside;
    }

    pub Stands-leave :
        (rest : List ℕ) → get_elem? s.threads i ≡ some owner → line ≡ i ∷ rest → Stands left rest
    unfolding left
    Stands-leave rest here eq = record {
      next_ticket = ground (arith, v.next_ticket, ap length eq);
      word = omega arith;
      few = omega (arith, length-set s.threads i outside, v.few);
      all_in = ground (
        arith,
        v.all_in,
        ap length eq,
        total-set inside s.threads i outside here,
        total-get_elem? inside s.threads i here,
      );
      at = λ d j e.
          let e' : get_elem? line (suc d) ≡ some j = rw eq e in
          let first : get_elem? line 0 ≡ some i = rw eq refl in
          let ne : i ≢ j = λ q. absurd (omega (arith, once 0 (suc d) j (first ∙ ap some q) e')) in
          rw (get_elem?-set_ne s.threads i j outside ne) (ground (arith, v.at (suc d) j e'));
      found = λ j p e. elim (get_elem?-set_inv s.threads i j outside e) [
        | inl (_, out) ↦ inl out
        | inr (ne, old) ↦ elim (v.found j p old) [
          | inl out ↦ inl out
          | inr (zero, q) ↦ absurd (ne (ground (arith, ap (λ l. get_elem? l 0) eq)))
          | inr (suc d, q) ↦ inr (d, rw eq at q)
        ]
      ];
    }
