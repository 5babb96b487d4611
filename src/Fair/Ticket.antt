-- ===== src/Fair/Ticket.antt =====
-- include/fair_mutex.hpp: `yamc::fair::mutex`, a ticket lock with a condition variable. Tickets are
-- `std::size_t` and wrap round.
pub mod Line
pub mod Order
pub mod Safety
pub mod Examples
use yamc.Common.{ℕ, Bool, true, false, if◌then◌else◌, ◌==◌, inc, size_mod, replicate}
use yamc.Threads.{
  Outcome, returned, waiting, Turn, refused, settle, Action, call, wake, System, silent, notify_all,
}

pub record Mutex : Type 0 where
  pub next : ℕ
  pub curr : ℕ

-- The loop of `lock`, from its test on.
unfoldable pub lock_loop : ℕ → Mutex → Outcome Mutex Bool
lock_loop request m = if request == m.curr then returned m true silent else waiting m silent

unfoldable pub lock : Mutex → Outcome Mutex Bool
unfolding lock_loop
lock m = let request = m.next in lock_loop request (record m { next = inc size_mod m.next })

unfoldable pub try_lock : Mutex → Outcome Mutex Bool
try_lock m =
    if m.next == m.curr
    then returned (record m { next = inc size_mod m.next }) true silent
    else returned m false silent

unfoldable pub unlock : Mutex → Outcome Mutex Bool
unlock m = returned (record m { curr = inc size_mod m.curr }) true notify_all

-- Outside, in the loop of `lock` with its ticket, or between `lock` and `unlock`.
pub data Place : Type 0 where
  outside : Place
  in_lock : (request : ℕ) → Place
  owner : Place

pub data Method : Type 0 where
  locks try_locks unlocks : Method

abbrev pub granted : Bool → Place
granted true = owner
granted false = outside

unfoldable pub act : ℕ → Action Method → Mutex → Place → Turn Mutex Place
unfolding lock try_lock unlock lock_loop
act i (call locks) m outside = settle granted (in_lock m.next) (lock m)
act i (call try_locks) m outside = settle granted outside (try_lock m)
act i (call unlocks) m owner = settle (λ _. outside) owner (unlock m)
act i (wake _) m (in_lock request) = settle granted (in_lock request) (lock_loop request m)
act i _ m _ = refused

-- A new mutex, and `n` threads that do not use it yet.
abbrev pub init : ℕ → System Mutex Place
init n = record { shared = record { next = 0; curr = 0 }; threads = replicate n outside }
