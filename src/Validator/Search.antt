-- ===== src/Validator/Search.antt =====
-- include/yamc_lock_validator.hpp: `find_closepath` decides whether a chain of waits is closed.
use mathlib.Core.WellFounded.{Acc}
use yamc.Common.{
  ℕ, zero, suc, ◌+◌, ◌≤◌, ◌≡◌, ◌≢◌, refl, Bool, true, false, Option, some, List, [], ◌∷◌, ◌⊎◌, inl,
  inr, subst, ◌==◌, ◌||◌, arith, Bool-cases,
}
use yamc.Fair.WaitQueue.Chain.{In}
use yamc.Validator.{Entry, contains, scan_waiters, scan_entries, find_closepath}
use yamc.Validator.WaitsFor.{BlocksBut, Owns, Leads, owner, via}

-- The Boolean tells whether `P` holds.
abbrev pub Says : Bool → Type 0 → Type 0
Says true P = P
Says false P = P → ⊥

Says-map : {P Q : Type 0} (b : Bool) → (P → Q) → (Q → P) → Says b P → Says b Q
Says-map true f g s = f s
Says-map false f g s = λ q. s (g q)

Says-or : (P Q : Type 0) (b c : Bool) → Says b P → Says c Q → Says (b || c) (P ⊎ Q)
Says-or P Q true c s t = inl s
Says-or P Q false true s t = inr t
Says-or P Q false false s t = λ r. elim r [ inl p ↦ s p | inr q ↦ t q ]

eq-Says : (x a : ℕ) → Says (x == a) (a ≡ x)
eq-Says x a = elim (Bool-cases (x == a)) [
  | inl e ↦ rw e (ground arith)
  | inr e ↦ rw e (λ p. ground arith)
]

pub contains-Says : (xs : List ℕ) (a : ℕ) → Says (contains xs a) (In a xs)
contains-Says [] a = λ i. i
contains-Says (x ∷ xs) a =
    Says-or (a ≡ x) (In a xs) (x == a) (contains xs a) (eq-Says x a) (contains-Says xs a)

scan_waiters-cons :
    (go : ℕ → Option Bool) (w : ℕ) (ws : List ℕ) (b c : Bool)
    → go w ≡ some b
    → scan_waiters go ws ≡ some c
    → scan_waiters go (w ∷ ws) ≡ some (b || c)
unfolding scan_waiters
scan_waiters-cons go w ws b c e f = ground arith

-- What a list of waiters adds to the loop over the map.
scan_entries-cons :
    (go : ℕ → Option Bool) (end t : ℕ) (e : Entry) (es : List Entry) (c : Bool)
    → scan_entries go end t es ≡ some c
    → (contains e.owners t ≡ false → scan_entries go end t (e ∷ es) ≡ some c)
      × (contains e.owners t ≡ true
          → (e.key == end) ≡ true
          → scan_entries go end t (e ∷ es) ≡ some true)
      × ((b : Bool)
          → contains e.owners t ≡ true
          → (e.key == end) ≡ false
          → scan_waiters go e.waiters ≡ some b
          → scan_entries go end t (e ∷ es) ≡ some (b || c))
unfolding scan_entries
scan_entries-cons go end t e es c f = (ground arith, ground arith, λ b o k g. ground arith)

contains-In : (xs : List ℕ) (a : ℕ) → contains xs a ≡ true → In a xs
contains-In xs a e = subst (λ b. Says b (In a xs)) e (contains-Says xs a)

contains_out : (xs : List ℕ) (a : ℕ) → contains xs a ≡ false → In a xs → ⊥
contains_out xs a e = subst (λ b. Says b (In a xs)) e (contains-Says xs a)

test_eq : (a b : ℕ) → (a == b) ≡ true → a ≡ b
test_eq a b e = ground arith

test_ne : (a b : ℕ) → (a == b) ≡ false → a ≢ b
test_ne a b e = ground arith

module _ (m : List Entry) (end : ℕ) where
  -- With enough fuel the search from `t` ends, and tells whether a chain leads on from `t`.
  abbrev pub Decided : ℕ → Type 0
  Decided t =
      (b : Bool) × (n : ℕ) × ((k : ℕ) → n ≤ k → find_closepath k m end t ≡ some b)
      × Says b (Leads m end t)

  abbrev AnyLeads : List ℕ → Type 0
  AnyLeads [] = ⊥
  AnyLeads (w ∷ ws) = Leads m end w ⊎ AnyLeads ws

  AnyLeads-In : (ws : List ℕ) (w : ℕ) → In w ws → Leads m end w → AnyLeads ws
  AnyLeads-In [] w i l = i
  AnyLeads-In (x ∷ ws) w (inl e) l = inl (subst (Leads m end) e l)
  AnyLeads-In (x ∷ ws) w (inr i) l = inr (AnyLeads-In ws w i l)

  AnyLeads-some : (ws : List ℕ) → AnyLeads ws → (w : ℕ) × In w ws × Leads m end w
  AnyLeads-some [] a = absurd a
  AnyLeads-some (x ∷ ws) (inl l) = (x, inl refl, l)
  AnyLeads-some (x ∷ ws) (inr a) = let (w, i, l) = AnyLeads-some ws a in (w, inr i, l)

  waiters-Decided :
      (ws : List ℕ)
      → ((w : ℕ) → In w ws → Decided w)
      → (b : Bool) × (n : ℕ) × ((k : ℕ) → n ≤ k → scan_waiters (find_closepath k m end) ws ≡ some b)
        × Says b (AnyLeads ws)
  unfolding scan_waiters
  waiters-Decided [] d = (false, 0, (λ k h. refl), λ a. a)
  waiters-Decided (w ∷ ws) d =
      let (b, n, f, s) = d w (inl refl) in
      let (c, n', f', s') = waiters-Decided ws (λ v i. d v (inr i)) in
      (
        b || c,
        n + n',
        (λ k h.
            scan_waiters-cons (find_closepath k m end) w ws b c (f k (omega arith))
              (f' k (omega arith))),
        Says-or (Leads m end w) (AnyLeads ws) b c s s',
      )

  -- What the loop over the map looks for.
  abbrev Found : ℕ → List Entry → Type 0
  Found t es = Owns end es t ⊎ ((w : ℕ) × BlocksBut end es t w × Leads m end w)

  Found-later : (t : ℕ) (e : Entry) (es : List Entry) → Found t es → Found t (e ∷ es)
  Found-later t e es (inl o) = inl (inr o)
  Found-later t e es (inr (w, b, l)) = inr (w, inr b, l)

  module _ (t : ℕ) (e : Entry) (es : List Entry) where
    Found-skip : (In t e.owners → ⊥) → Found t (e ∷ es) → Found t es
    Found-skip out (inl (inl (k, o))) = absurd (out o)
    Found-skip out (inl (inr o)) = inl o
    Found-skip out (inr (w, inl (k, o, i), l)) = absurd (out o)
    Found-skip out (inr (w, inr b, l)) = inr (w, b, l)

    Found-waiter :
        e.key ≢ end → In t e.owners → (AnyLeads e.waiters ⊎ Found t es) → Found t (e ∷ es)
    Found-waiter ne o (inl a) =
        let (w, i, l) = AnyLeads-some e.waiters a in inr (w, inl (ne, o, i), l)
    Found-waiter ne o (inr f) = Found-later t e es f

    Found-inv : e.key ≢ end → Found t (e ∷ es) → AnyLeads e.waiters ⊎ Found t es
    Found-inv ne (inl (inl (k, o))) = absurd (ne k)
    Found-inv ne (inl (inr o)) = inr (inl o)
    Found-inv ne (inr (w, inl (k, o, i), l)) = inl (AnyLeads-In e.waiters w i l)
    Found-inv ne (inr (w, inr b, l)) = inr (inr (w, b, l))

  entries-Decided :
      (t : ℕ) (es : List Entry)
      → ((w : ℕ) → BlocksBut end es t w → Decided w)
      → (b : Bool) × (n : ℕ) × ((k : ℕ)
          → n ≤ k
          → scan_entries (find_closepath k m end) end t es ≡ some b)
        × Says b (Found t es)
  unfolding scan_entries
  entries-Decided t [] d = (false, 0, (λ k h. refl), λ f. elim f [ inl o ↦ o | inr (w, b, l) ↦ b ])
  entries-Decided t (e ∷ es) d =
      let (c, n', f', s') = entries-Decided t es (λ w b. d w (inr b)) in
      elim (Bool-cases (contains e.owners t)) [
        | inr out ↦ (
          c,
          n',
          (λ k h. (scan_entries-cons (find_closepath k m end) end t e es c (f' k h)).0 out),
          Says-map c (Found-later t e es) (Found-skip t e es (contains_out e.owners t out)) s',
        )
        | inl own ↦ elim (Bool-cases (e.key == end)) [
          | inl at ↦ (
            true,
            n',
            (λ k h. (scan_entries-cons (find_closepath k m end) end t e es c (f' k h)).1 own at),
            inl (inl (test_eq e.key end at, contains-In e.owners t own)),
          )
          | inr off ↦
              let ne = test_ne e.key end off in
              let o = contains-In e.owners t own in
              let (b, n, f, s) = waiters-Decided e.waiters (λ w i. d w (inl (ne, o, i))) in
              (
                b || c,
                n + n',
                (λ k h.
                    (scan_entries-cons (find_closepath k m end) end t e es c
                        (f' k (omega (arith, h)))).2
                      b own off (f k (omega (arith, h)))),
                Says-map (b || c) (Found-waiter t e es ne o) (Found-inv t e es ne)
                    (Says-or (AnyLeads e.waiters) (Found t es) b c s s'),
              )
        ]
      ]

  find_suc :
      (k t : ℕ) {b : Bool}
      → scan_entries (find_closepath k m end) end t m ≡ some b
      → find_closepath (suc k) m end t ≡ some b
  unfolding find_closepath
  find_suc k t e = e

  Leads-Found : (t : ℕ) → Found t m → Leads m end t
  Leads-Found t (inl o) = owner o
  Leads-Found t (inr (w, b, l)) = via b l

  Found-Leads : {t : ℕ} → Leads m end t → Found t m
  Found-Leads (owner o) = inl o
  Found-Leads (via {t} {w} b l) = inr (w, b, l)

  find_enough :
      (k n t : ℕ) {b : Bool}
      → suc n ≤ k
      → ((i : ℕ) → n ≤ i → scan_entries (find_closepath i m end) end t m ≡ some b)
      → find_closepath k m end t ≡ some b
  find_enough zero n t h f = absurd (omega arith)
  find_enough (suc k) n t h f = find_suc k t (f k (omega arith))

  pub search-Decided : (t : ℕ) → Acc (λ w u. BlocksBut end m u w) t → Decided t
  search-Decided t (Acc.intro _ next) =
      let (b, n, f, s) = entries-Decided t m (λ w e. search-Decided w (next w e)) in
      (b, suc n, λ k h. find_enough k n t h f, Says-map b (Leads-Found t) (λ l. Found-Leads l) s)
