-- ===== src/Latch/Laws.antt =====
-- include/yamc_latch.hpp: the latch opens when the expected number has been counted down, not before,
-- and stays open.
use yamc.Common.{
  inr, inl, ℕ, ◌+◌, ◌≡◌, ◌≢◌, refl, subst, some, get_elem?, total, others, total-get_elem?,
  total-set, total-replicate_zero, get_elem?-set_inv, get_elem?-replicate, arith,
}
use yamc.Threads.{
  Notice, notify_all, Turn, moved, refused, failed, Action, call, System, Step, turn, Reach,
  Reach-inv,
}
use yamc.Latch.{
  Latch, latch, subtract, Place, outside, in_wait, passed, Method, counts_down, tries_wait, act,
  start_with,
}

abbrev pub arrived : Place → ℕ
arrived (outside a) = a
arrived (in_wait a) = a
arrived (passed a) = a

-- A thread that was let through has seen the latch open.
abbrev Open : Latch → Place → Type 0
Open s (passed a) = s.counter ≡ 0
Open s _ = Unit

abbrev Keeps : ℕ → ℕ → Latch → Turn Latch Place → Type 0
Keeps d a s (moved t p n) =
    (t.counter + (a + arrived p) ≡ d) × Open t p × (s.counter ≡ 0 → t.counter ≡ 0)
Keeps d a s refused = Unit
Keeps d a s failed = Unit

act-Keeps :
    (d a i : ℕ) (x : Action Method) (s : Latch) (p : Place)
    → s.counter + (a + arrived p) ≡ d
    → Open s p
    → Keeps d a s (act i x s p)
unfolding act subtract
act-Keeps d a i (call (counts_down u)) s (outside b) h o = ground arith
act-Keeps d a i (call (counts_down u)) s (passed b) h o = ground arith
act-Keeps d a i (call tries_wait) s (outside b) h o = ground arith
act-Keeps d a i x s p h o = ground arith

record Inv (d : ℕ) (s : System Latch Place) : Type 0 where
  sum : s.shared.counter + total arrived s.threads ≡ d
  opened : (i : ℕ) (p : Place) → get_elem? s.threads i ≡ some p → Open s.shared p

Open-mono : (s t : Latch) (p : Place) → (s.counter ≡ 0 → t.counter ≡ 0) → Open s p → Open t p
Open-mono s t (passed a) h o = h o
Open-mono s t p h o = tt

Step-Inv : (d : ℕ) (s t : System Latch Place) → Step act s t → Inv d s → Inv d t
Step-Inv d s t (turn i x {p} {p'} {m} {n = k} at e) v = record {
  sum = rw (total-set arrived s.threads i p' at) (ground (arith, kept.0));
  opened = λ j q f. elim (get_elem?-set_inv s.threads i j p' f) [
    | inl (_, self) ↦ rw self kept.1
    | inr (_, old) ↦ Open-mono s.shared m q kept.2 (v.opened j q old)
  ];
}
  where
    kept : Keeps d (others arrived s.threads i) s.shared (moved m p' k)
    kept = subst (Keeps d (others arrived s.threads i) s.shared) e (
        act-Keeps d (others arrived s.threads i) i x s.shared p
          (ground (arith, v.sum, total-get_elem? arrived s.threads i at)) (v.opened i p at))

-- Any number of threads, in any interleaving: what is left and what has arrived make up the expected
-- number, and a thread that a wait has let through finds the latch open, with all of it arrived.
pub opens_when_all_arrived :
    (expected n : ℕ) {s0 : Latch} {s : System Latch Place}
    → latch expected ≡ some s0
    → Reach act (start_with s0 n) s
    → (s.shared.counter + total arrived s.threads ≡ expected)
      × ((i a : ℕ) → get_elem? s.threads i ≡ some (passed a) → total arrived s.threads ≡ expected)
unfolding latch
opens_when_all_arrived expected n {s0} {s} e r =
    let v = Reach-inv act (Inv expected) (Step-Inv expected) r (record {
      sum = ground (arith, total-replicate_zero arrived n (outside 0) refl);
      opened = λ i p f. rw (get_elem?-replicate n (outside 0) i f) tt;
    }) in
    (v.sum, λ i a f. omega (arith, v.sum, v.opened i (passed a) f))

-- The turn that opens the latch notifies all; no turn closes it again.
latch_wakes :
    (i : ℕ) (x : Action Method) (s t : Latch) (p p' : Place) (n : Notice)
    → act i x s p ≡ moved t p' n
    → (s.counter ≢ 0 → t.counter ≡ 0 → n ≡ notify_all) × (s.counter ≡ 0 → t.counter ≡ 0)
unfolding act subtract
latch_wakes i (call (counts_down u)) s t (outside b) p' n e = ground arith
latch_wakes i x s t p p' n e = ground arith
