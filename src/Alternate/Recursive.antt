-- ===== src/Alternate/Recursive.antt =====
-- include/alternate_mutex.hpp: `yamc::alternate::recursive_mutex`. It has no section that runs without
-- interruption: `owner_` is atomic and is read by threads that do not hold `mtx_`. So each access to
-- `owner_`, `ncount_` or `mtx_` is a step of its own. The memory order does not enter.
pub mod Exclusion
use yamc.Common.{
  ℕ, ◌+◌, ◌-◌, Bool, true, false, Option, some, none, if◌then◌else◌, asserted, ◌==◌, ◌&&◌, ltb, inc,
  dec, size_mod, replicate,
}
use yamc.Threads.{Turn, moved, refused, failed, System, silent}

-- `mtx` is the holder of the `std::mutex`.
pub record Mutex : Type 0 where
  pub ncount : ℕ
  pub owner : ℕ
  pub mtx : ℕ

abbrev pub no_thread : ℕ
no_thread = 0

abbrev pub tid : ℕ → ℕ
tid i = i + 1

-- The destructor's assertion.
pub destroy : Mutex → Option Mutex
destroy m = asserted (m.ncount == 0 && m.owner == no_thread) m

-- Where a thread stands, by the access that comes next: none; the load of `owner_` in `lock` and in
-- `try_lock`; `mtx_.lock()`; `mtx_.try_lock()`; the store of its own number to `owner_`; `ncount_ = 1`;
-- `++ncount_`; none, while it holds the mutex `c` times; `--ncount_`, once the assertion has passed; the
-- store of no number to `owner_`; `mtx_.unlock()`.
pub data Place : Type 0 where
  outside loads try_loads waits tries stores counts : Place
  adds holds subtracts : (c : ℕ) → Place
  clears unlocks : Place

-- A thread begins a call, goes on in the one it is in, or has `mtx_.try_lock()` fail without a cause, as the
-- standard allows.
pub data Act : Type 0 where
  begins_lock begins_try_lock begins_unlock goes_on fails_spuriously : Act

-- `lock` and `try_lock` once `owner_` has been read, by a thread that holds the mutex `c` times.
abbrev pub loaded : ℕ → Place → ℕ → Mutex → Turn Mutex Place
loaded i else_place c m =
    if m.owner == tid i then moved m (adds c) silent else moved m else_place silent

-- `mtx_.lock()` returns, and `mtx_.try_lock()` answers.
abbrev pub mtx_lock : ℕ → Mutex → Turn Mutex Place
mtx_lock i m =
    if m.mtx == no_thread then moved (record m { mtx = tid i }) stores silent else refused

abbrev pub mtx_try_lock : ℕ → Mutex → Turn Mutex Place
mtx_try_lock i m =
    if m.mtx == no_thread
    then moved (record m { mtx = tid i }) stores silent
    else moved m outside silent

-- The assertion of `unlock`.
abbrev pub unlock_entry : ℕ → ℕ → Mutex → Turn Mutex Place
unlock_entry i c m =
    if ltb 0 m.ncount && m.owner == tid i then moved m (subtracts c) silent else failed

-- `--ncount_ == 0`.
abbrev pub count_down : ℕ → Mutex → Turn Mutex Place
count_down c m =
    let t = record m { ncount = dec size_mod m.ncount } in
    if t.ncount == 0 then moved t clears silent else moved t (holds (c - 1)) silent

-- A thread calls `unlock` only while it holds the mutex, and takes it less than 2 ^ 64 times. While
-- another holds `mtx_`, `mtx_.lock()` does not return. Inside `lock` and `try_lock` of a thread that
-- holds the mutex the load stands beside the entry, since nobody else can write what it reads.
unfoldable pub act : ℕ → Act → Mutex → Place → Turn Mutex Place
act i begins_lock m outside = moved m loads silent
act i begins_try_lock m outside = moved m try_loads silent
act i begins_lock m (holds c) = if ltb (c + 1) size_mod then loaded i waits c m else refused
act i begins_try_lock m (holds c) = if ltb (c + 1) size_mod then loaded i tries c m else refused
act i begins_unlock m (holds c) = unlock_entry i c m
act i goes_on m loads = loaded i waits 0 m
act i goes_on m try_loads = loaded i tries 0 m
act i goes_on m waits = mtx_lock i m
act i goes_on m tries = mtx_try_lock i m
act i fails_spuriously m tries = moved m outside silent
act i goes_on m stores = moved (record m { owner = tid i }) counts silent
act i goes_on m counts = moved (record m { ncount = 1 }) (holds 1) silent
act i goes_on m (adds c) =
    moved (record m { ncount = inc size_mod m.ncount }) (holds (c + 1)) silent
act i goes_on m (subtracts c) = count_down c m
act i goes_on m clears = moved (record m { owner = no_thread }) unlocks silent
act i goes_on m unlocks = moved (record m { mtx = no_thread }) outside silent
act i _ m _ = refused

-- A new mutex, and `n` threads that do not use it yet.
abbrev pub init : ℕ → System Mutex Place
init n = record {
  shared = record { ncount = 0; owner = no_thread; mtx = no_thread };
  threads = replicate n outside;
}
