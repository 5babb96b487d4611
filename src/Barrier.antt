-- ===== src/Barrier.antt =====
-- include/yamc_barrier.hpp: `yamc::barrier`. As in Semaphore.antt a `std::ptrdiff_t` is a natural
-- number, by the class's assertions; `phase_` is an `unsigned` and wraps round. The completion function
-- belongs to the user of the class: it is a parameter that changes a state of its own.
pub mod Laws
pub mod Examples
use yamc.Common.{
  ℕ, ◌+◌, ◌-◌, ◌^◌, Bool, true, false, Option, some, none, if◌then◌else◌, asserted, leb, ltb, ◌==◌,
  ◌&&◌, inc, unsigned_mod,
}
use yamc.Threads.{Outcome, returned, waiting, ◌>>=◌, silent, notify_all, Notice}

pub record Barrier (C : Type 0) : Type 0 where
  pub init_count : ℕ
  pub counter : ℕ
  pub phase : ℕ
  pub completion : C

-- `std::numeric_limits<std::ptrdiff_t>::max()`.
abbrev pub max : ℕ
max = 2 ^ 63 - 1

module _ {C : Type 0} where
  -- The constructor.
  pub barrier : ℕ → C → Option (Barrier C)
  barrier expected f =
      asserted (ltb expected max)
        (record { init_count = expected; counter = expected; phase = 0; completion = f })

module _ {C : Type 0} (complete : C → C) where
  pub phase_completion_step : Bool → Barrier C → Barrier C
  phase_completion_step drop b =
      let count = if drop then b.init_count - 1 else b.init_count in
      record {
        init_count = count;
        counter = count;
        phase = inc unsigned_mod b.phase;
        completion = complete b.completion;
      }

  -- `counter_ -= update`, and the end of the phase if it was the last arrival.
  pub count_off : Bool → ℕ → Barrier C → Barrier C
  unfolding phase_completion_step
  count_off drop update b =
      if b.counter - update == 0
      then phase_completion_step drop (record b { counter = b.counter - update })
      else record b { counter = b.counter - update }

  abbrev pub notice : ℕ → Barrier C → Notice
  notice update b = if b.counter - update == 0 then notify_all else silent

  pub arrive : ℕ → Barrier C → Outcome (Barrier C) ℕ
  unfolding count_off
  arrive update b = do
    b' ← asserted (ltb 0 update && leb update b.counter) b
    returned (count_off false update b') b'.phase (notice update b')

  -- The loop of the waits, from its test on, for a thread that arrived in phase `token`.
  pub wait_loop : Notice → ℕ → Barrier C → Outcome (Barrier C) ℕ
  wait_loop n token b = if leb b.phase token then waiting b n else returned b token n

  pub wait : ℕ → Barrier C → Outcome (Barrier C) ℕ
  unfolding wait_loop
  wait token b = wait_loop silent token b

  pub arrive_and_wait : Barrier C → Outcome (Barrier C) ℕ
  unfolding count_off wait_loop
  arrive_and_wait b = do
    b' ← asserted (ltb 0 b.counter) b
    wait_loop (notice 1 b') b'.phase (count_off false 1 b')

  pub arrive_and_drop : Barrier C → Outcome (Barrier C) ℕ
  unfolding count_off wait_loop
  arrive_and_drop b = do
    b' ← asserted (ltb 0 b.counter) b
    wait_loop (notice 1 b') b'.phase (count_off true 1 b')
