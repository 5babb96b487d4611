-- ===== src/Semaphore.antt =====
-- include/yamc_semaphore.hpp: `yamc::counting_semaphore`. The constructor and `release` assert that the
-- counter and their arguments are not negative, so a `std::ptrdiff_t` is a natural number here, and a
-- call with a negative argument, whose assertion fails, is left out.
pub mod Laws
pub mod Examples
use yamc.Common.{
  ℕ, ◌+◌, ◌-◌, Bool, true, false, Option, some, none, if◌then◌else◌, asserted, leb, ltb, replicate,
}
use yamc.Threads.{
  Outcome, returned, waiting, ◌>>=◌, Turn, refused, settle, Action, call, wake, System, silent,
  notify_all,
}

pub record Semaphore : Type 0 where
  pub max : ℕ  -- the template argument `least_max_value`
  pub counter : ℕ

-- The constructor.
pub counting_semaphore : ℕ → ℕ → Option Semaphore
counting_semaphore max desired =
    asserted (leb desired max) (record { max = max; counter = desired })

pub release : ℕ → Semaphore → Outcome Semaphore Bool
release update s = do
  t ← asserted (leb update (s.max - s.counter)) (record s { counter = s.counter + update })
  returned t true (if ltb 0 t.counter then notify_all else silent)

take : Semaphore → Outcome Semaphore Bool
take s = returned (record s { counter = s.counter - 1 }) true silent

-- The loop of `acquire` and of `do_try_acquirewait`, from its test on.
pub acquire_loop : Semaphore → Outcome Semaphore Bool
unfolding take
acquire_loop s = if leb s.counter 0 then waiting s silent else take s

pub acquire : Semaphore → Outcome Semaphore Bool
unfolding acquire_loop
acquire s = acquire_loop s

pub try_acquire : Semaphore → Outcome Semaphore Bool
unfolding take
try_acquire s = if leb s.counter 0 then returned s false silent else take s

-- `do_try_acquirewait` after a timeout.
pub do_try_acquirewait_timeout : Semaphore → Outcome Semaphore Bool
unfolding take
do_try_acquirewait_timeout s = if ltb 0 s.counter then take s else returned s false silent

-- Where a thread stands, with the permits that it has acquired and released so far.
pub data Place : Type 0 where
  outside : (acquired released : ℕ) → Place
  in_acquire : (acquired released : ℕ) → Place
  in_acquire_until : (acquired released : ℕ) → Place

pub data Method : Type 0 where
  acquires try_acquires try_acquires_until : Method
  releases : (update : ℕ) → Method

abbrev pub granted : ℕ → ℕ → Bool → Place
granted a r true = outside (a + 1) r
granted a r false = outside a r

pub act : ℕ → Action Method → Semaphore → Place → Turn Semaphore Place
unfolding acquire try_acquire release acquire_loop do_try_acquirewait_timeout
act i (call acquires) s (outside a r) = settle (granted a r) (in_acquire a r) (acquire s)
act i (call try_acquires) s (outside a r) = settle (granted a r) (outside a r) (try_acquire s)
act i (call try_acquires_until) s (outside a r) =
    settle (granted a r) (in_acquire_until a r) (acquire_loop s)
act i (call (releases u)) s (outside a r) =
    settle (λ _. outside a (r + u)) (outside a r) (release u s)
act i (wake _) s (in_acquire a r) = settle (granted a r) (in_acquire a r) (acquire_loop s)
act i (wake false) s (in_acquire_until a r) =
    settle (granted a r) (in_acquire_until a r) (acquire_loop s)
act i (wake true) s (in_acquire_until a r) =
    settle (granted a r) (in_acquire_until a r) (do_try_acquirewait_timeout s)
act i _ s _ = refused

-- A new semaphore, and `n` threads that have not used it yet.
abbrev pub start_with : Semaphore → ℕ → System Semaphore Place
start_with s n = record { shared = s; threads = replicate n (outside 0 0) }
