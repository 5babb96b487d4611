-- ===== src/Fair/Shared.antt =====
-- include/fair_shared_mutex.hpp: `shared_mutex_base`, with `TaskFairness` or `PhaseFairness`. The
-- status of a node is a `std::size_t`: bit 0 is 1 for a shared lock, bit 1 is 1 when the node may lock,
-- and in `locked_` the bits above count the threads that hold the lock.
pub mod Phase
pub mod Group
pub mod Unlock
pub mod Timeout
pub mod Line
pub mod Places
pub mod Opened
pub mod Hold
pub mod Turns
pub mod Joins
pub mod Exclusive
pub mod Release
pub mod GivingUp
pub mod Lockable
pub mod Sharing
pub mod SharedWaits
pub mod Leaving
pub mod Acts
pub mod Standing
pub mod Runs
pub mod Exclusion
pub mod Progress
pub mod Wakeups
pub mod Examples
use yamc.Common.{
  ℕ, zero, suc, ◌+◌, ◌-◌, ◌/◌, ◌%◌, ◌^◌, Bool, true, false, not, ◌&&◌, ◌||◌, Option, some, none,
  if◌then◌else◌, asserted, leb, ltb, ◌==◌, size_mod,
}
use yamc.Threads.{Outcome, returned, waiting, ◌>>=◌, silent, notify_all}
use yamc.Fair.WaitQueue.{
  Store, queue, locked, null, sentinel, request, update, set_next, set_prev, set_status, wq_empty,
  wq_push_front, wq_push_back, wq_erase,
}

-- `RwLockFairness::phased`.
abbrev pub task_fairness : Bool
task_fairness = false

abbrev pub phase_fairness : Bool
phase_fairness = true

-- `status & node_status_mask`.
abbrev pub masked : ℕ → ℕ
masked s = s % 4

-- `status | 2`.
abbrev pub lockable : ℕ → ℕ
lockable s = if s / 2 % 2 == 0 then s + 2 else s

abbrev pub node_nthread_inc : ℕ
node_nthread_inc = 4

-- `p->status |= 2`.
abbrev pub mark : ℕ → Store → Store
mark p h = set_status p (lockable (h.status p)) h

pub wq_shared_lockable : Store → Bool
wq_shared_lockable h = wq_empty h || masked (h.status (h.prev queue)) == 3

-- A mode is 0 for an exclusive lock and 1 for a shared one, so `mode | 2` is `mode + 2`.
place_locknode : ℕ → Store → Store
place_locknode mode h =
    if h.next queue == locked then h else wq_push_front locked (set_status locked (mode + 2) h)

pub wq_push_locknode : ℕ → Store → Option Store
unfolding place_locknode
wq_push_locknode mode h =
    let g = place_locknode mode h in
    asserted (masked (g.status locked) == mode + 2)
      (set_status locked ((g.status locked + node_nthread_inc) % size_mod) g)

-- The body of `wq_pop_locknode` after its assertion.
abbrev pub take_out : Store → Store
take_out h = set_next locked null (set_prev locked null (set_status locked 0 (wq_erase locked h)))

pub wq_pop_locknode : Store → Option Store
wq_pop_locknode h = asserted (h.next queue == locked) (take_out h)

-- Exclusive locking: the loop of `impl_lock` and of `impl_try_lockwait`, from its test on.
pub impl_lock_loop : ℕ → Store → Outcome Store Bool
unfolding wq_push_locknode
impl_lock_loop i h =
    if h.next queue == request i
    then (do g ← wq_push_locknode 0 (wq_erase (request i) h); returned g true silent)
    else waiting h silent

pub impl_lock : ℕ → Store → Outcome Store Bool
unfolding impl_lock_loop
impl_lock i h =
    if wq_empty h
    then (do g ← wq_push_locknode 0 h; returned g true silent)
    else impl_lock_loop i (wq_push_back (request i) (set_status (request i) 0 h))

pub impl_try_lock : Store → Outcome Store Bool
unfolding wq_push_locknode
impl_try_lock h =
    if wq_empty h
    then (do g ← wq_push_locknode 0 h; returned g true silent)
    else returned h false silent

-- `TaskFairness`, and `impl_try_lockwait` after a timeout: from `p` on, mark the shared nodes up to the
-- first other node. `none` is the end of the fuel, which bounds the number of nodes.
unfoldable pub mark_group : ℕ → ℕ → Store → Option Store
mark_group zero p h = none
mark_group (suc fuel) p h =
    let rest = mark_group fuel (h.next p) (mark p h) in
    if not (p == queue) && masked (h.status p) == 1 then rest else some h

-- `PhaseFairness`: from `p` up to the sentinel, move the exclusive nodes to the back and mark the
-- shared ones.
unfoldable pub sort_phase : ℕ → ℕ → Store → Option Store
sort_phase zero p h = none
sort_phase (suc fuel) p h =
    let next = h.next p in
    let moved = sort_phase fuel next (wq_push_back p (wq_erase p h)) in
    let marked = sort_phase fuel next (mark p h) in
    let is_shared = masked (h.status p) == 1 in
    if p == sentinel
    then some h
    else if masked (h.status p) == 0
    then moved
    else if is_shared
    then marked
    else none

-- The store when the loop starts: the sentinel, whose status no other node has, is at the back.
abbrev pub with_sentinel : Store → Store
with_sentinel h = wq_push_back sentinel (set_status sentinel (size_mod - 1) h)

-- The whole of the loop, with the sentinel put at the back and taken out again.
pub reorder : ℕ → Store → Option Store
unfolding sort_phase
reorder fuel h =
    let g = with_sentinel h in
    elim (sort_phase fuel (g.next queue) g) [ none ↦ none | some k ↦ some (wq_erase sentinel k) ]

-- The block of `impl_unlock` under `if (!wq_empty())`.
pub mark_next : ℕ → Bool → Store → Option Store
unfolding reorder
mark_next fuel phased h =
    let sorts = reorder fuel h in
    let marks = mark_group fuel (h.next queue) h in
    if wq_empty h
    then some h
    else if phased
    then if masked (h.status (h.next queue)) == 1 then sorts else some h
    else marks

pub impl_unlock : ℕ → Bool → Store → Outcome Store Bool
unfolding mark_next wq_pop_locknode
impl_unlock fuel phased h = do
  g ← asserted (h.next queue == locked && masked (h.status locked) == 2) h
  k ← wq_pop_locknode g
  m ← mark_next fuel phased k
  returned m true notify_all

-- The clock decides when `wait_until` times out: a step of its own, which a thread that still waits
-- takes at any time. Whoever times out looks at its condition once more.
pub impl_try_lockwait_timeout : ℕ → ℕ → Store → Outcome Store Bool
unfolding wq_push_locknode
impl_try_lockwait_timeout fuel i h =
    let r = request i in
    let marks = mark_group fuel (h.next r) h in
    if h.next queue == r
    then (do g ← wq_push_locknode 0 (wq_erase r h); returned g true silent)
    else if masked (h.status (h.prev r)) == 3
    then (do g ← marks; returned (wq_erase r g) false notify_all)
    else returned (wq_erase r h) false silent

-- Shared locking: the loop of `impl_lock_shared` and of `impl_try_lockwait_shared`, from its test on.
pub impl_lock_shared_loop : ℕ → Store → Outcome Store Bool
unfolding wq_push_locknode
impl_lock_shared_loop i h =
    if h.status (request i) == 3
    then (do g ← wq_push_locknode 1 (wq_erase (request i) h); returned g true silent)
    else waiting h silent

pub impl_lock_shared : ℕ → Store → Outcome Store Bool
unfolding impl_lock_shared_loop
impl_lock_shared i h =
    if wq_shared_lockable h
    then (do g ← wq_push_locknode 1 h; returned g true silent)
    else impl_lock_shared_loop i (wq_push_back (request i) (set_status (request i) 1 h))

pub impl_try_lock_shared : Store → Outcome Store Bool
unfolding wq_push_locknode
impl_try_lock_shared h =
    if wq_shared_lockable h
    then (do g ← wq_push_locknode 1 h; returned g true silent)
    else returned h false silent

-- One hold less, and the lock node out of the queue with the last one.
release_shared : Store → Outcome Store Bool
unfolding wq_pop_locknode
release_shared h =
    if ltb (h.status locked) node_nthread_inc
    then (do m ← wq_pop_locknode h; returned m true notify_all)
    else returned h true silent

-- The assertions come first, so the subtraction does not wrap.
pub impl_unlock_shared : Store → Outcome Store Bool
unfolding release_shared
impl_unlock_shared h = do
  f ← asserted (h.next queue == locked) h
  g ← asserted (masked (f.status locked) == 3 && leb node_nthread_inc (f.status locked)) f
  release_shared (set_status locked (g.status locked - node_nthread_inc) g)

pub impl_try_lockwait_shared_timeout : ℕ → Store → Outcome Store Bool
unfolding wq_push_locknode
impl_try_lockwait_shared_timeout i h =
    if h.status (request i) == 3
    then (do g ← wq_push_locknode 1 (wq_erase (request i) h); returned g true silent)
    else returned (wq_erase (request i) h) false silent
