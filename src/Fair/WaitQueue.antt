-- ===== src/Fair/WaitQueue.antt =====
-- include/fair_mutex.hpp and include/fair_shared_mutex.hpp: the intrusive, circular, doubly linked
-- wait queue of `timed_mutex_impl` and `shared_mutex_base`. Nodes live in a store that is indexed by
-- their addresses: `queue_` and `locked_` are members of the mutex, a request is a local variable of
-- the method that waits.
pub mod Chain
pub mod Push
pub mod Remove
pub mod Members
pub mod Examples
use yamc.Common.{◌+◌, ℕ, Bool, Option, if◌then◌else◌, ◌==◌, not, asserted}

pub record Store : Type 0 where
  pub status : ℕ → ℕ
  pub next : ℕ → ℕ
  pub prev : ℕ → ℕ

-- The address of `queue_`, whose `next` is the front and whose `prev` is the back.
abbrev pub queue : ℕ
queue = 0

-- The address of `locked_`.
abbrev pub locked : ℕ
locked = 1

abbrev pub null : ℕ
null = 2

-- The address of the local variable `sentinel` of `impl_unlock`.
abbrev pub sentinel : ℕ
sentinel = 3

-- The address of the request of thread `i`.
abbrev pub request : ℕ → ℕ
request i = i + 4

-- A new mutex: `queue_{0, &queue_, &queue_}`.
abbrev pub init : Store
init = record { status = λ _. 0; next = λ _. queue; prev = λ _. queue }

abbrev pub update : (ℕ → ℕ) → ℕ → ℕ → ℕ → ℕ
update f a v b = if a == b then v else f b

-- `a->next = b` and `a->prev = b`.
abbrev pub set_next : ℕ → ℕ → Store → Store
set_next a b h = record h { next = update h.next a b }

abbrev pub set_prev : ℕ → ℕ → Store → Store
set_prev a b h = record h { prev = update h.prev a b }

abbrev pub set_status : ℕ → ℕ → Store → Store
set_status a v h = record h { status = update h.status a v }

unfoldable pub wq_empty : Store → Bool
wq_empty h = h.next queue == queue

unfoldable pub wq_push_front : ℕ → Store → Store
wq_push_front p h =
    let next = h.next queue in
    let h1 = set_next queue p h in
    let h2 = set_prev next p h1 in let h3 = set_next p next h2 in set_prev p queue h3

unfoldable pub wq_push_back : ℕ → Store → Store
wq_push_back p h =
    let back = h.prev queue in
    let h1 = set_prev queue p h in
    let h2 = set_next back p h1 in let h3 = set_next p queue h2 in set_prev p back h3

unfoldable pub wq_erase : ℕ → Store → Store
wq_erase p h = let h1 = set_prev (h.next p) (h.prev p) h in set_next (h1.prev p) (h1.next p) h1

unfoldable pub wq_pop_front : Store → Store
unfolding wq_erase
wq_pop_front h = wq_erase (h.next queue) h

-- The body of `wq_replace_front` after its assertion. `*p = *front` copies both links of the front
-- node; a node of `fair_mutex.hpp` has no other members.
unfoldable pub replace_front : ℕ → Store → Store
replace_front p h =
    let front = h.next queue in
    let h1 = set_next p (h.next front) h in
    let h2 = set_prev p (h1.prev front) h1 in
    let h3 = set_prev (h2.next front) p h2 in set_next queue p h3

unfoldable pub wq_replace_front : ℕ → Store → Option Store
unfolding replace_front
wq_replace_front p h = asserted (not (h.next queue == p)) (replace_front p h)
