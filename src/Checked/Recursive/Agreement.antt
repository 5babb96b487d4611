-- ===== src/Checked/Recursive/Agreement.antt =====
-- include/checked_mutex.hpp: the recursive mutexes against `recursive_timed_mutex` of
-- include/alternate_mutex.hpp.
use yamc.Common.{ℕ, ◌≡◌, ◌≢◌, Bool, false, Option, some, none, ◌==◌}
use yamc.Threads.{Outcome, returned, waiting, aborted, Notice, silent, notify_one, notify_all}
use yamc.Validator.{Validator}
use yamc.Checked.{Answer, done, thrown, deadlock, invalid_unlock, tid}
use yamc.Checked.Recursive.{
  Mutexes, lock_loop, lock, try_lock, unlock, do_try_lockwait, do_try_lockwait_timeout, Section,
  locks, lock_wakes, lock_goes_on, try_locks, unlocks, waits_until, wakes_until, times_out,
}
use yamc.Alternate.RecursiveTimed
use yamc.Alternate.RecursiveTimed.{Mutex}

-- Mutex `k` without the validator.
abbrev pub bare : {V : Type 0} → ℕ → Mutexes V → Mutex
bare k s = record { ncount = s.ncount k; owner = s.owner k }

-- The section of `alternate::recursive_timed_mutex` at the same point of the member of that name. It has none
-- for the part of `lock` that only tells the validator that it has woken.
abbrev pub bare_run : Section → ℕ → Mutex → Outcome Mutex Bool
bare_run locks i m = RecursiveTimed.lock i m
bare_run lock_wakes i m = waiting m silent
bare_run lock_goes_on i m = RecursiveTimed.lock_loop i m
bare_run try_locks i m = RecursiveTimed.try_lock i m
bare_run unlocks i m = RecursiveTimed.unlock i m
bare_run waits_until i m = RecursiveTimed.do_try_lockwait i m
bare_run wakes_until i m = RecursiveTimed.lock_loop i m
bare_run times_out i m = RecursiveTimed.do_try_lockwait_timeout i m

-- `notify_all` stands where the other mutex has `notify_one`.
abbrev pub SameNotice : Notice → Notice → Type 0
SameNotice silent silent = Unit {0}
SameNotice notify_all notify_one = Unit {0}
SameNotice _ _ = ⊥

-- The table that a section asks whether it may wait, if it does ask.
abbrev pub asked : {V : Type 0} → Validator V → Section → ℕ → ℕ → Mutexes V → Option V
asked W locks k i s = some s.table
asked W lock_goes_on k i s = some s.table
asked W _ k i s = none

abbrev pub Answered :
    {V : Type 0} → Validator V → Section → ℕ → ℕ → Mutexes V → Option (Bool × V) → Type 0
Answered {V} W c k i s a = (u : V) × (asked W c k i s ≡ some u) × (W.enqueue k (tid i) u ≡ a)

-- The outcome of a section at mutex `k` of the state `s` against the other mutex's. It is the same, and no
-- other mutex changes, but for three cases: where the other waits, a section of `lock` throws `deadlock`
-- if the validator refuses, and does not end if the validator does not return; and where the other's
-- `unlock` fails its assertion, for a thread that does not own it, it throws `invalid_unlock`.
abbrev pub Agrees :
    {V : Type 0}
    → Validator V
    → Section
    → ℕ
    → ℕ
    → Mutexes V
    → Outcome (Mutexes V) Answer
    → Outcome Mutex Bool
    → Type 0
Agrees W c k i s (returned t (done b) n) (returned m d n') =
    (bare k t ≡ m) × (b ≡ d) × SameNotice n n' × ((j : ℕ) → j ≢ k → bare j t ≡ bare j s)
Agrees W c k i s (returned t (thrown deadlock) n) (waiting m _) =
    (bare k t ≡ m)
    × (n ≡ silent)
    × ((j : ℕ) → bare j t ≡ bare j s)
    × Answered W c k i s (some (false, t.table))
Agrees W c k i s (returned t (thrown invalid_unlock) n) aborted =
    (c ≡ unlocks) × ((s.owner k == tid i) ≡ false) × (t ≡ s) × (n ≡ silent)
Agrees W c k i s (waiting t n) (waiting m n') =
    (bare k t ≡ m) × SameNotice n n' × ((j : ℕ) → bare j t ≡ bare j s)
Agrees W c k i s aborted (waiting m _) = Answered W c k i s none
Agrees W c k i s aborted aborted = Unit {0}
Agrees _ _ _ _ _ _ _ = ⊥
