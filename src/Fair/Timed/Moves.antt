-- ===== src/Fair/Timed/Moves.antt =====
-- include/fair_mutex.hpp: what the sections of `timed_mutex` do to the queue, as a list.
use yamc.Common.{
  ◌⊎◌, inl, inr, Bool-cases, ◌==◌, true, false, ◌∙◌, false, sym, true, ℕ, ◌≡◌, ◌≢◌, refl, List, [],
  ◌∷◌, ◌++◌, arith,
}
use yamc.Threads.{returned, waiting, aborted, notify_all, silent}
use yamc.Fair.WaitQueue.{
  replace_front, Store, queue, locked, request, wq_push_back, wq_erase, wq_pop_front,
}
use yamc.Fair.WaitQueue.Chain.{Queued, Fresh, In}
use yamc.Fair.WaitQueue.Push.{wq_empty-nil, wq_empty-cons, wq_push_back-Queued}
use yamc.Fair.WaitQueue.Remove.{replace_front-Queued, wq_replace_front-Queued}
use yamc.Fair.Timed.{
  impl_lock, impl_lock_loop, impl_try_lock, impl_unlock, impl_try_lockwait_timeout, Place, outside,
  in_lock, in_lock_until, owner,
}

-- A turn of thread `i`, on the list of nodes.
pub data Move (i : ℕ) : List ℕ → Place → List ℕ → Place → Type 0 where
  enters : Move i [] outside (locked ∷ []) owner
  queues : (x : ℕ) (xs : List ℕ) → Move i (x ∷ xs) outside ((x ∷ xs) ++ request i ∷ []) in_lock
  queues_until :
      (x : ℕ) (xs : List ℕ) → Move i (x ∷ xs) outside ((x ∷ xs) ++ request i ∷ []) in_lock_until
  finds_locked : (x : ℕ) (xs : List ℕ) → Move i (x ∷ xs) outside (x ∷ xs) outside
  takes : (xs : List ℕ) → Move i (request i ∷ xs) in_lock (locked ∷ xs) owner
  takes_until : (xs : List ℕ) → Move i (request i ∷ xs) in_lock_until (locked ∷ xs) owner
  waits : (x : ℕ) (xs : List ℕ) → x ≢ request i → Move i (x ∷ xs) in_lock (x ∷ xs) in_lock
  waits_until :
      (x : ℕ) (xs : List ℕ) → x ≢ request i → Move i (x ∷ xs) in_lock_until (x ∷ xs) in_lock_until
  gives_up :
      (x : ℕ) (us ys : List ℕ)
      → Move i ((x ∷ us) ++ request i ∷ ys) in_lock_until ((x ∷ us) ++ ys) outside
  leaves : (xs : List ℕ) → Move i (locked ∷ xs) owner xs outside

-- Where a thread may stand when the list of nodes is `l`.
abbrev pub Placed : ℕ → Place → List ℕ → Type 0
Placed i outside l = Fresh (request i) l
Placed i in_lock l = In (request i) l
Placed i in_lock_until l = In (request i) l
Placed i owner l = (xs : List ℕ) × (l ≡ locked ∷ xs)

-- `locked_` stands nowhere but at the front.
abbrev pub Line : List ℕ → Type 0
Line [] = Unit {0}
Line (x ∷ xs) = Fresh locked xs

test_fails : (a b : ℕ) → a ≢ b → (a == b) ≡ false
test_fails a b ne = ground arith

test_holds : (a b : ℕ) → a ≡ b → (a == b) ≡ true
test_holds a b e = ground arith

module _ (i : ℕ) (h : Store) where
  pub lock_empty : Queued h [] → impl_lock i h ≡ returned (wq_push_back locked h) true silent
  unfolding impl_lock
  lock_empty q = rw (wq_empty-nil h q) refl

  pub try_lock_empty : Queued h [] → impl_try_lock h ≡ returned (wq_push_back locked h) true silent
  unfolding impl_try_lock
  try_lock_empty q = rw (wq_empty-nil h q) refl

  pub enters-Queued : Queued h [] → Queued (wq_push_back locked h) (locked ∷ [])
  enters-Queued q = wq_push_back-Queued h locked [] q ((ground arith), tt)

  pub loop_takes :
      (xs : List ℕ)
      → Queued h (request i ∷ xs)
      → Fresh locked xs
      → (impl_lock_loop i h ≡ returned (replace_front locked h) true silent)
        × (impl_try_lockwait_timeout i h ≡ returned (replace_front locked h) true silent)
        × Queued (replace_front locked h) (locked ∷ xs)
  unfolding impl_lock_loop impl_try_lockwait_timeout
  loop_takes xs q f =
      let new : Fresh locked (queue ∷ request i ∷ xs) = ((ground arith), ((ground arith), f)) in
      let run = wq_replace_front-Queued h locked (request i) xs q new in
      (
        rw (test_holds (h.next queue) (request i) q.0.0.0) (rw run refl),
        rw (test_holds (h.next queue) (request i) q.0.0.0) (rw run refl),
        replace_front-Queued h locked (request i) xs q new,
      )

  module _ (x : ℕ) (xs : List ℕ) (q : Queued h (x ∷ xs)) where
    pub try_lock_full : impl_try_lock h ≡ returned h false silent
    unfolding impl_try_lock
    try_lock_full = rw (wq_empty-cons h x xs q) refl

    pub loop_waits : x ≢ request i → impl_lock_loop i h ≡ waiting h silent
    unfolding impl_lock_loop
    loop_waits ne = rw (test_fails (h.next queue) (request i) (λ e. ne (sym q.0.0.0 ∙ e))) refl

    pub timeout_erases :
        x ≢ request i
        → impl_try_lockwait_timeout i h ≡ returned (wq_erase (request i) h) false silent
    unfolding impl_try_lockwait_timeout
    timeout_erases ne = rw (test_fails (h.next queue) (request i) (λ e. ne (sym q.0.0.0 ∙ e))) refl

    module _ (f : Fresh (request i) (x ∷ xs)) where
      pub queues-Queued : Queued (wq_push_back (request i) h) ((x ∷ xs) ++ request i ∷ [])
      queues-Queued = wq_push_back-Queued h (request i) (x ∷ xs) q ((ground arith), f)

  pub unlock_front :
      (xs : List ℕ)
      → Queued h (locked ∷ xs)
      → impl_unlock h ≡ returned (wq_pop_front h) true notify_all
  unfolding impl_unlock
  unlock_front xs q = rw q.0.0.0 refl

pub lock_full :
    (i : ℕ) (h : Store) (x : ℕ) (xs : List ℕ)
    → Queued h (x ∷ xs)
    → Fresh (request i) (x ∷ xs)
    → impl_lock i h ≡ waiting (wq_push_back (request i) h) silent
unfolding impl_lock
lock_full i h x xs q f = rw (wq_empty-cons h x xs q) (
    loop_waits i (wq_push_back (request i) h) x (xs ++ request i ∷ []) (queues-Queued i h x xs q f)
      (λ e. f.0 (sym e)))

-- `unlock` releases the mutex or fails its assertion.
pub impl_unlock-cases :
    (h : Store)
    → (impl_unlock h ≡ aborted) ⊎ (impl_unlock h ≡ returned (wq_pop_front h) true notify_all)
unfolding impl_unlock
impl_unlock-cases h = elim (Bool-cases (h.next queue == locked)) [
  | inl e ↦ inr (rw e refl)
  | inr e ↦ inl (rw e refl)
]
