-- ===== src/Barrier/Laws.antt =====
-- include/yamc_barrier.hpp: phases of a barrier, and where they go wrong.
use yamc.Common.{
  ap, inr, inl, ◌⊎◌, ℕ, zero, suc, ◌+◌, ◌-◌, ◌/◌, ◌%◌, ◌≤◌, ◌<◌, ◌≡◌, refl, Bool, true, false,
  Option, some, none, unsigned_mod, arith,
}
use yamc.Threads.{Outcome, returned, waiting, aborted, silent, notify_all}
use yamc.Barrier.{
  Barrier, phase_completion_step, count_off, arrive, wait, arrive_and_wait, arrive_and_drop,
}

suc_div_mod :
    (m c : ℕ)
    → 0 < c
    → ((m % c + 1 < c) × (suc m % c ≡ m % c + 1) × (suc m / c ≡ m / c))
      ⊎ ((m % c + 1 ≡ c) × (suc m % c ≡ 0) × (suc m / c ≡ suc (m / c)))
suc_div_mod m c pos = grind arith

module _ {C : Type 0} (complete : C → C) where
  abbrev pub iterate : ℕ → C → C
  iterate zero c = c
  iterate (suc k) c = complete (iterate k c)

  abbrev left : Outcome (Barrier C) ℕ → Option (Barrier C)
  left (returned b r n) = some b
  left (waiting b n) = some b
  left aborted = none

  -- `m` threads arrive, one after the other.
  unfoldable pub arrivals : ℕ → Barrier C → Option (Barrier C)
  arrivals zero b = some b
  arrivals (suc m) b = elim (arrivals m b) [ none ↦ none | some b' ↦ left (arrive complete 1 b') ]

  abbrev pub after_arrivals : Barrier C → ℕ → Barrier C
  after_arrivals b m = record b {
    counter = b.init_count - m % b.init_count;
    phase = (b.phase + m / b.init_count) % unsigned_mod;
    completion = iterate (m / b.init_count) b.completion;
  }

  -- The next arrival ends a phase or does not.
  arrive_after :
      (b : Barrier C) (m : ℕ)
      → 0 < b.init_count
      → left (arrive complete 1 (after_arrivals b m)) ≡ some (after_arrivals b (suc m))
  unfolding arrive
  arrive_after b m pos = elim (suc_div_mod m b.init_count pos) [
    | inl (a, e, f) ↦ ground arith
    | inr (a, e, f) ↦ ground (arith, ap (λ (k : ℕ). iterate k b.completion) f)
  ]

  -- After `m` arrivals at a barrier of `c` threads the completion has run `m / c` times, the phase
  -- has advanced as often, modulo 2 ^ 32, and `c - m % c` arrivals are wanted.
  pub phases_count_arrivals :
      (b : Barrier C) (m : ℕ)
      → 0 < b.init_count
      → b.counter ≡ b.init_count
      → b.phase < unsigned_mod
      → arrivals m b ≡ some (after_arrivals b m)
  unfolding arrivals
  phases_count_arrivals b zero pos full word =
      let none_yet : 0 / b.init_count ≡ 0 = grind arith in
      ground (arith, ap (λ (k : ℕ). iterate k b.completion) none_yet)
  phases_count_arrivals b (suc m) pos full word =
      rw (phases_count_arrivals b m pos full word) (arrive_after b m pos)

  -- A thread that arrived in a phase below 2 ^ 32 - 1 goes on once the phase is over, whatever
  -- `arrive_and_wait` or `arrive_and_drop` ended it; all waiters are notified.
  last_arrival_opens :
      (b : Barrier C) (drop : Bool)
      → b.counter ≡ 1
      → b.phase + 1 < unsigned_mod
      → (arrive_and_wait complete b ≡ returned (count_off complete false 1 b) b.phase notify_all)
        × (arrive_and_drop complete b ≡ returned (count_off complete true 1 b) b.phase notify_all)
        × ((token : ℕ)
            → token ≤ b.phase
            → wait complete token (count_off complete drop 1 b)
              ≡ returned (count_off complete drop 1 b) token silent)
  unfolding arrive_and_wait arrive_and_drop wait
  last_arrival_opens b drop one word = (ground arith, ground arith, λ token h. ground arith)

  -- The wrap of `phase_`: the thread that ends phase 2 ^ 32 - 1 does not return, and a thread that
  -- arrived in it waits again at every wake-up, in whatever state.
  phase_wraps :
      (b : Barrier C)
      → b.counter ≡ 1
      → b.phase ≡ unsigned_mod - 1
      → (arrive_and_wait complete b ≡ waiting (count_off complete false 1 b) notify_all)
        × ((t : Barrier C) → t.phase < unsigned_mod → wait complete b.phase t ≡ waiting t silent)
  unfolding arrive_and_wait wait
  phase_wraps b one word = (ground arith, λ t h. ground arith)

  -- A thread that drops without being the last to arrive is not taken off the expected count: the next
  -- phase, which the remaining arrivals open, waits for as many threads as the last.
  pub drop_is_lost :
      (b : Barrier C)
      → 1 < b.counter
      → (t u : Barrier C) × (arrive_and_drop complete b ≡ waiting t silent)
        × (arrive complete (b.counter - 1) t ≡ returned u b.phase notify_all)
        × (u.init_count ≡ b.init_count)
        × (u.counter ≡ b.init_count)
  unfolding arrive_and_drop arrive phase_completion_step
  drop_is_lost b many = (
    record b { counter = b.counter - 1 },
    phase_completion_step complete false (record b { counter = 0 }),
    ground arith,
    ground arith,
    refl,
    refl,
  )
