-- ===== src/Fair/Recursive.antt =====
-- include/fair_mutex.hpp: `yamc::fair::recursive_mutex`, tickets with an owner and a count. A
-- `std::thread::id` is a number: 0 is that of no thread, and thread `i` has `i + 1`.
pub mod Nesting
pub mod Places
pub mod Turns
pub mod Exclusion
pub mod Examples
use yamc.Common.{
  ℕ, ◌+◌, Bool, true, false, Option, some, none, if◌then◌else◌, asserted, ◌==◌, ◌&&◌, ltb, inc, dec,
  size_mod,
}
use yamc.Threads.{Outcome, returned, waiting, ◌>>=◌, silent, notify_all}

pub record Mutex : Type 0 where
  pub next : ℕ
  pub curr : ℕ
  pub ncount : ℕ
  pub owner : ℕ

abbrev pub no_thread : ℕ
no_thread = 0

abbrev pub tid : ℕ → ℕ
tid i = i + 1

-- `++ncount_`, for a thread that owns the mutex.
abbrev pub count_up : Mutex → Outcome Mutex Bool
count_up m = do
  t ← asserted (ltb 0 m.ncount) (record m { ncount = inc size_mod m.ncount })
  returned t true silent

-- The end of `lock` and of `try_lock`.
abbrev pub take : ℕ → Mutex → Outcome Mutex Bool
take i m = do
  t ← asserted (m.ncount == 0 && m.owner == no_thread) (record m { ncount = 1; owner = tid i })
  returned t true silent

-- The loop of `lock`, from its test on.
pub lock_loop : ℕ → ℕ → Mutex → Outcome Mutex Bool
lock_loop i request m = if request == m.curr then take i m else waiting m silent

pub lock : ℕ → Mutex → Outcome Mutex Bool
unfolding lock_loop
lock i m =
    if m.owner == tid i
    then count_up m
    else lock_loop i m.next (record m { next = inc size_mod m.next })

pub try_lock : ℕ → Mutex → Outcome Mutex Bool
try_lock i m =
    if m.owner == tid i
    then count_up m
    else if m.next == m.curr
    then take i (record m { next = inc size_mod m.next })
    else returned m false silent

-- `--ncount_`, and the end of the ownership at 0.
abbrev pub count_down : Mutex → Outcome Mutex Bool
count_down m =
    let t = record m { ncount = dec size_mod m.ncount } in
    if t.ncount == 0
    then returned (record t { curr = inc size_mod t.curr; owner = no_thread }) true notify_all
    else returned t true silent

pub unlock : ℕ → Mutex → Outcome Mutex Bool
unlock i m = do t ← asserted (ltb 0 m.ncount && m.owner == tid i) m; count_down t
