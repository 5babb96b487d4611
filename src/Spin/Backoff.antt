-- ===== src/Spin/Backoff.antt =====
-- include/yamc_backoff_spin.hpp: the policies `exponential`, `yield` and `busy`. An `unsigned int` has 32
-- bits and wraps round.
use yamc.Common.{
  ◌∙◌, zero, suc, ◌≡◌, ◌<◌, refl, arith, ap, ◌≡◌, ◌<◌, suc, ℕ, ◌+◌, ◌*◌, ◌/◌, Bool, true, false,
  if◌then◌else◌, ◌==◌, dec, unsigned_mod,
}
use yamc.Spin.{BackoffPolicy}

-- `exponential<InitCount>::state`.
pub record State : Type 0 where
  pub initcount : ℕ
  pub counter : ℕ

-- `(c >> 1) | 1`.
abbrev pub halved : ℕ → ℕ
halved c = c / 4 * 2 + 1

-- `exponential<InitCount>::wait`.
unfoldable pub wait : State → State × Bool
wait s =
    if s.counter == 0
    then (
      record { initcount = halved s.initcount; counter = dec unsigned_mod (halved s.initcount) },
      true,
    )
    else (record s { counter = dec unsigned_mod s.counter }, false)

unfoldable pub exponential : ℕ → BackoffPolicy State
unfolding wait
exponential init_count = record {
  initial = record { initcount = init_count; counter = init_count };
  wait = wait;
}

pub yield : BackoffPolicy (Unit {0})
yield = record { initial = tt; wait = λ s. (s, true) }

pub busy : BackoffPolicy (Unit {0})
busy = record { initial = tt; wait = λ s. (s, false) }

-- The state after `n` calls of `wait`, and how many of them yielded.
pub repeat_wait : ℕ → State → State × ℕ
repeat_wait zero s = (s, 0)
repeat_wait (suc n) s =
    let (t, yields) = wait s in
    let (u, more) = repeat_wait n t in (u, if yields then more + 1 else more)

-- A state that is about to yield.
abbrev pub due : ℕ → State
due c = record { initcount = c; counter = 0 }

one_more : (n : ℕ) → n + 1 ≡ suc n
one_more n = omega arith

wait_counts :
    (n c : ℕ)
    → suc n < unsigned_mod
    → wait (record { initcount = c; counter = suc n })
      ≡ (record { initcount = c; counter = n }, false)
unfolding wait
wait_counts n c w = let less : dec unsigned_mod (suc n) ≡ n = omega arith in ground (arith, less)

wait_yields :
    (c : ℕ)
    → c < unsigned_mod
    → wait (due c) ≡ (record { initcount = halved c; counter = c / 4 * 2 }, true)
unfolding wait
wait_yields c w =
    let less : dec unsigned_mod (halved c) ≡ c / 4 * 2 = omega arith in ground (arith, less)

spins :
    (n c : ℕ)
    → n < unsigned_mod
    → repeat_wait n (record { initcount = c; counter = n }) ≡ (due c, 0)
unfolding repeat_wait
spins zero c w = refl
spins (suc n) c w = rw (wait_counts n c w) (rw (spins n c (omega arith)) refl)

round_of_suc :
    (c : ℕ) → c < unsigned_mod → repeat_wait (suc (c / 4 * 2)) (due c) ≡ (due (halved c), 1)
unfolding repeat_wait
round_of_suc c w = rw (wait_yields c w) (rw (spins (c / 4 * 2) (halved c) (omega arith)) refl)

-- A round of `exponential`: whatever the initial count, the wait that finds the counter at 0 yields,
-- and it takes `halved c` waits, of which no other yields, until the
-- counter is at 0 again.
exponential_round :
    (c : ℕ) → c < unsigned_mod → repeat_wait (halved c) (due c) ≡ (due (halved c), 1)
exponential_round c w = ap (λ k. repeat_wait k (due c)) (one_more (c / 4 * 2)) ∙ round_of_suc c w
