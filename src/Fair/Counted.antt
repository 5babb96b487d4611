-- ===== src/Fair/Counted.antt =====
-- include/fair_mutex.hpp: the owner and the count that the recursive mutexes keep over a mutex that is not
-- recursive. `view` and `see` give the state of that mutex and where a thread stands at it.
use yamc.Common.{
  eq_or_ne, ℕ, ◌<◌, ◌≡◌, ◌≢◌, ◌⊎◌, refl, inl, inr, some, map, get_elem?, set, sym, subst, ap, ◌∙◌,
  get_elem?-map, map-set, get_elem?-set_inv, get_elem?-set_self, get_elem?-set_ne, set-get_elem?,
  size_mod, arith,
}
use yamc.Threads.{Turn, moved, refused, failed, Notice, System, Step, turn, Reach, later, Reach-inv}
use yamc.Fair.Recursive.{no_thread, tid}

pub record Layer (X S P L B : Type 0) : Type 0 where
  pub own : X → ℕ
  pub count : X → ℕ
  pub view : X → S
  pub depth : P → ℕ
  pub see : P → L
  pub owner : L
  pub under : ℕ → B → S → L → Turn S L

module _ {X S P L B : Type 0} (R : Layer X S P L B) where
  open R use {own, count, view, depth, see, owner, under}

  abbrev pub seen : System X P → System S L
  seen s = record { shared = view s.shared; threads = map see s.threads }

  -- A thread owns the mutex exactly while it has taken it more often than it has unlocked it, and is
  -- counted as often.
  abbrev pub Fits : ℕ → P → X → Type 0
  Fits i p x =
      ((own x ≡ tid i) × (count x ≡ depth p) × (0 < depth p) × (depth p < size_mod))
      ⊎ ((own x ≢ tid i) × (depth p ≡ 0) × (see p ≢ owner))

  abbrev pub Under : ℕ → X → P → X → P → Type 0
  Under i x p x' p' =
      (b : B) × (n : Notice) × (under i b (view x) (see p) ≡ moved (view x') (see p') n)

  -- What a turn of thread `i` changes: only the count, or it is a turn at the mutex below, which leaves
  -- owner and count as they are, or makes the thread the owner, or ends its ownership.
  pub data Change (i : ℕ) (x : X) (p : P) (x' : X) (p' : P) : Type 0 where
    recounts :
        own x ≡ tid i → own x' ≡ tid i → view x' ≡ view x → see p' ≡ see p → Change i x p x' p'
    passes : Under i x p x' p' → own x' ≡ own x → count x' ≡ count x → Change i x p x' p'
    takes : Under i x p x' p' → see p' ≡ owner → own x' ≡ tid i → Change i x p x' p'
    leaves :
        Under i x p x' p' → own x ≡ tid i → own x' ≡ no_thread → count x' ≡ 0 → Change i x p x' p'

  -- Why an assertion fails: one of the mutex below does, or the mutex below lets a thread in while
  -- another one is noted.
  pub data Failure (i : ℕ) (x : X) (p : P) : Type 0 where
    below : (b : B) → under i b (view x) (see p) ≡ failed → Failure i x p
    barred :
        (b : B) (s : S) (n : Notice)
        → under i b (view x) (see p) ≡ moved s owner n
        → own x ≢ tid i
        → (own x ≢ no_thread) ⊎ (count x ≢ 0)
        → Failure i x p

  abbrev pub TurnGood : ℕ → X → P → Turn X P → Type 0
  TurnGood i x p (moved x' p' n) = Fits i p' x' × Change i x p x' p'
  TurnGood i x p refused = Unit {0}
  TurnGood i x p failed = Failure i x p

  abbrev Noted : System X P → Type 0
  Noted s =
      ((own s.shared ≡ no_thread) × (count s.shared ≡ 0))
      ⊎ ((j : ℕ) × (q : P) × (get_elem? s.threads j ≡ some q) × (own s.shared ≡ tid j))

  -- The mutex below is in a state that it reaches on its own.
  pub record Inv (origin : System S L) (s : System X P) : Type 0 where
    pub reached : Reach under origin (seen s)
    pub fits : (i : ℕ) (p : P) → get_elem? s.threads i ≡ some p → Fits i p s.shared
    pub noted : Noted s

  -- What the mutex below promises.
  pub record Sure (origin : System S L) : Type 0 where
    pub alone :
        (s : System S L)
        → Reach under origin s
        → (i j : ℕ) → i ≢ j
        → get_elem? s.threads i ≡ some owner
        → get_elem? s.threads j ≢ some owner
    pub no_failure :
        (s : System S L)
        → Reach under origin s
        → (i : ℕ) (b : B) (l : L) → get_elem? s.threads i ≡ some l
        → under i b s.shared l ≢ failed
    pub sees : (p : P) → 0 < depth p → see p ≡ owner

  -- One turn of thread `i`.
  module _ {origin : System S L} (sure : Sure origin) (s : System X P) (v : Inv origin s) (i : ℕ)
      (p : P) (at : get_elem? s.threads i ≡ some p) where
    under_step :
        (b : B) (m : S) (l : L) (n : Notice)
        → under i b (view s.shared) (see p) ≡ moved m l n
        → Reach under origin (record { shared = m; threads = set (map see s.threads) i l })
    under_step b m l n e = later v.reached (turn i b (get_elem?-map see s.threads i at) e)

    -- While a turn of the mutex below lets thread `i` in, no other thread has taken the mutex.
    no_other :
        (m : S) (l : L)
        → Reach under origin (record { shared = m; threads = set (map see s.threads) i l })
        → l ≡ owner
        → (j : ℕ) (q : P) → i ≢ j
        → get_elem? s.threads j ≡ some q
        → depth q ≡ 0
    no_other m l r e j q ne at_j =
        let here : get_elem? (set (map see s.threads) i l) i ≡ some owner =
          get_elem?-set_self (map see s.threads) i l (get_elem?-map see s.threads i at)
          ∙ ap some e in
        let there : get_elem? (set (map see s.threads) i l) j ≡ some (see q) =
          get_elem?-set_ne (map see s.threads) i j l ne ∙ get_elem?-map see s.threads j at_j in
        elim (eq_or_ne (depth q) 0) [
          | inl none_left ↦ none_left
          | inr some_left ↦
              absurd (sure.alone _ r i j ne here (there ∙ ap some (sure.sees q (omega arith))))
        ]

    module _ (x' : X) (p' : P) (c : Change i s.shared p x' p') (f : Fits i p' x') where
      abbrev after : System X P
      after = record { shared = x'; threads = set s.threads i p' }

      same_threads : see p' ≡ see p → set (map see s.threads) i (see p') ≡ map see s.threads
      same_threads e =
          ap (λ l. set (map see s.threads) i l) e
          ∙ set-get_elem? (map see s.threads) i (get_elem?-map see s.threads i at)

      moved_Reach :
          Reach under origin
            (record { shared = view x'; threads = set (map see s.threads) i (see p') })
      moved_Reach = elim c [
        | recounts _ _ e l ↦
            subst
              (λ m.
                Reach under origin
                  (record { shared = m; threads = set (map see s.threads) i (see p') }))
              (sym e)
              (subst (λ ts. Reach under origin (record { shared = view s.shared; threads = ts }))
                (sym (same_threads l)) v.reached)
        | passes (b, n, e) _ _ ↦ under_step b (view x') (see p') n e
        | takes (b, n, e) _ _ ↦ under_step b (view x') (see p') n e
        | leaves (b, n, e) _ _ _ ↦ under_step b (view x') (see p') n e
      ]

      after_Reach : Reach under origin (seen after)
      after_Reach =
          subst (λ ts. Reach under origin (record { shared = view x'; threads = ts }))
            (sym (map-set see s.threads i p')) moved_Reach

      others :
          (j : ℕ) (q : P) → i ≢ j → get_elem? s.threads j ≡ some q → Fits j q s.shared → Fits j q x'
      others j q ne at_j g = elim c [
        | recounts a b _ _ ↦ ground (arith, g)
        | passes _ a b ↦ ground (arith, g)
        | takes _ e a ↦ ground (arith, no_other (view x') (see p') moved_Reach e j q ne at_j)
        | leaves _ a b _ ↦ ground (arith, g)
      ]

      holder : own x' ≡ tid i → Noted after
      holder e = inr (i, p', get_elem?-set_self s.threads i p' at, e)

      after-Noted : Noted after
      after-Noted = elim c [
        | recounts _ b _ _ ↦ holder b
        | takes _ _ a ↦ holder a
        | leaves _ _ a b ↦ inl (a, b)
        | passes _ a b ↦ elim v.noted [
          | inl (free, zero_count) ↦ inl (a ∙ free, b ∙ zero_count)
          | inr (j, q, at_j, mine) ↦ elim (eq_or_ne i j) [
            | inl same ↦ holder (a ∙ mine ∙ ap tid (sym same))
            | inr ne ↦ inr (j, q, get_elem?-set_ne s.threads i j p' ne ∙ at_j, a ∙ mine)
          ]
        ]
      ]

      after-Inv : Inv origin after
      after-Inv = record {
        reached = after_Reach;
        fits = λ j q at'. elim (get_elem?-set_inv s.threads i j p' at') [
          | inl (same, now) ↦ subst (λ k. Fits k q x') same (subst (λ r. Fits i r x') (sym now) f)
          | inr (ne, before) ↦ others j q ne before (v.fits j q before)
        ];
        noted = after-Noted;
      }

    not_barred :
        (b : B) (m : S) (n : Notice)
        → under i b (view s.shared) (see p) ≡ moved m owner n
        → own s.shared ≢ tid i
        → (own s.shared ≡ no_thread) × (count s.shared ≡ 0)
    not_barred b m n e ne = elim v.noted [
      | inl free ↦ free
      | inr (j, q, at_j, mine) ↦
          let apart : i ≢ j = λ same. ne (mine ∙ ap tid (sym same)) in
          let taken : depth q ≡ 0 =
            no_other m owner (under_step b m owner n e) refl j q apart at_j in
          ground (arith, v.fits j q at_j)
    ]

    never_Failure : ¬ Failure i s.shared p
    never_Failure (below b e) =
        sure.no_failure _ v.reached i b (see p) (get_elem?-map see s.threads i at) e
    never_Failure (barred b m n e ne why) = ground (arith, not_barred b m n e ne)

  module _ {A : Type 0} (act : ℕ → A → X → P → Turn X P) {origin : System S L} (sure : Sure origin)
      (keep : (i : ℕ) (a : A) (x : X) (p : P) → Fits i p x → TurnGood i x p (act i a x p)) where
    Step-Inv : (s t : System X P) → Step act s t → Inv origin s → Inv origin t
    Step-Inv s t (turn i a {p} {p'} {m} at e) v =
        let (f, c) = subst (TurnGood i s.shared p) e (keep i a s.shared p (v.fits i p at)) in
        after-Inv sure s v i p at m p' c f

    pub Reach-Inv : {s t : System X P} → Reach act s t → Inv origin s → Inv origin t
    Reach-Inv r v = Reach-inv act (Inv origin) Step-Inv r v

    -- No turn of a thread that stands at its place fails.
    pub never_fails :
        (s : System X P) (i : ℕ) (a : A) (p : P)
        → Inv origin s
        → get_elem? s.threads i ≡ some p
        → act i a s.shared p ≢ failed
    never_fails s i a p v at e =
        never_Failure sure s v i p at
          (subst (TurnGood i s.shared p) e (keep i a s.shared p (v.fits i p at)))

    -- While thread `i` has taken the mutex `depth p` times, at least once, no other thread has.
    pub only_one :
        (s : System X P)
        → Inv origin s
        → (i : ℕ) (p : P) → get_elem? s.threads i ≡ some p
        → 0 < depth p
        → (own s.shared ≡ tid i)
          × (count s.shared ≡ depth p)
          × ((j : ℕ) (q : P) → j ≢ i → get_elem? s.threads j ≡ some q → depth q ≡ 0)
    only_one s v i p at pos = elim (v.fits i p at) [
      | inl (mine, counted, _, _) ↦ (mine, counted, λ j q ne at_j. ground (arith, v.fits j q at_j))
      | inr (_, out, _) ↦ absurd (omega arith)
    ]
