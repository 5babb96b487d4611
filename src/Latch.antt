-- ===== src/Latch.antt =====
-- include/yamc_latch.hpp: `yamc::latch`. As in Semaphore.antt a `std::ptrdiff_t` is a natural number,
-- by the class's assertions.
pub mod Laws
pub mod Examples
use yamc.Common.{
  ℕ, ◌+◌, ◌-◌, ◌^◌, Bool, true, false, not, Option, some, none, if◌then◌else◌, asserted, leb, ltb,
  ◌==◌, replicate,
}
use yamc.Threads.{
  Outcome, returned, waiting, ◌>>=◌, Turn, refused, settle, Action, call, wake, System, silent,
  notify_all, Notice,
}

pub record Latch : Type 0 where
  pub counter : ℕ

-- `std::numeric_limits<std::ptrdiff_t>::max()`.
abbrev pub max : ℕ
max = 2 ^ 63 - 1

-- The constructor.
pub latch : ℕ → Option Latch
latch expected = asserted (ltb expected max) (record { counter = expected })

abbrev notice : Latch → Notice
notice s = if s.counter == 0 then notify_all else silent

subtract : ℕ → Latch → Option Latch
subtract update s = asserted (leb update s.counter) (record { counter = s.counter - update })

pub count_down : ℕ → Latch → Outcome Latch Bool
unfolding subtract
count_down update s = do t ← subtract update s; returned t true (notice t)

pub try_wait : Latch → Outcome Latch Bool
try_wait s = returned s (s.counter == 0) silent

-- The loop of `wait`, after a section that has sent `n`.
pub wait_loop : Notice → Latch → Outcome Latch Bool
wait_loop n s = if not (s.counter == 0) then waiting s n else returned s true n

pub wait : Latch → Outcome Latch Bool
unfolding wait_loop
wait s = wait_loop silent s

pub arrive_and_wait : ℕ → Latch → Outcome Latch Bool
unfolding subtract wait_loop
arrive_and_wait update s = do t ← subtract update s; wait_loop (notice t) t

-- Where a thread stands, with what it has counted down so far: it uses the latch, waits at it, or has
-- been let through by `wait`, by `arrive_and_wait` or by a `try_wait` that returned `true`.
pub data Place : Type 0 where
  outside in_wait passed : (arrived : ℕ) → Place

pub data Method : Type 0 where
  counts_down arrives_and_waits : (update : ℕ) → Method
  tries_wait waits : Method

abbrev pub seen : ℕ → Bool → Place
seen a true = passed a
seen a false = outside a

pub act : ℕ → Action Method → Latch → Place → Turn Latch Place
unfolding count_down try_wait wait arrive_and_wait wait_loop
act i (call (counts_down u)) s (outside a) =
    settle (λ _. outside (a + u)) (outside a) (count_down u s)
act i (call (counts_down u)) s (passed a) = settle (λ _. passed (a + u)) (passed a) (count_down u s)
act i (call tries_wait) s (outside a) = settle (seen a) (outside a) (try_wait s)
act i (call waits) s (outside a) = settle (seen a) (in_wait a) (wait s)
act i (call (arrives_and_waits u)) s (outside a) =
    settle (seen (a + u)) (in_wait (a + u)) (arrive_and_wait u s)
act i (wake _) s (in_wait a) = settle (seen a) (in_wait a) (wait_loop silent s)
act i _ s _ = refused

-- A new latch, and `n` threads that have not used it yet.
abbrev pub start_with : Latch → ℕ → System Latch Place
start_with s n = record { shared = s; threads = replicate n (outside 0) }
