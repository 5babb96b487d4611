-- ===== src/Checked/Shared/Sections.antt =====
-- include/checked_shared_mutex.hpp: each section, over a policy that keeps its contract and any validator,
-- passes its assertions and keeps `e_owner_` and `s_owner_` apart and in step with the policy's state.
use yamc.Common.{
  ℕ, suc, ◌<◌, ◌≡◌, refl, true, false, List, [], ◌⊎◌, inl, inr, ◌==◌, Bool-cases, length, arith,
  subst, ap,
}
use yamc.Threads.{Outcome}
use yamc.RwLock.Policy.{Policy, Lawful, max_count}
use yamc.Fair.WaitQueue.Chain.{In}
use yamc.Validator.{Validator, contains, remove_elem}
use yamc.Validator.WaitsFor.{In-remove_elem}
use yamc.Checked.{Answer, no_thread, tid}
use yamc.Checked.Shared.{
  Shared, owns, lock_loop, lock, try_lock, unlock, lock_shared_loop, lock_shared, try_lock_shared,
  unlock_shared, try_lock_loop, do_try_lockwait, do_try_lockwait_timeout, try_lock_shared_loop,
  do_try_lock_sharedwait, do_try_lock_sharedwait_timeout,
}
use yamc.Checked.Shared.Members.{remove_elem-Members, length-remove_elem}
use yamc.Checked.Shared.Ends.{
  writers, Held, NoAnswer, Grows, Ends, not_owner, out_of, into, take-Ends, take_shared-Ends,
  begin_wait-Ends, enter-Ends,
}

alone : (e : ℕ) (l : List ℕ) (i : ℕ) → (e == tid i) ≡ true → (e ≡ no_thread) ⊎ (l ≡ []) → l ≡ []
alone e l i own (inl f) = absurd (ground arith)
alone e l i own (inr f) = f

unowned : (e : ℕ) (l : List ℕ) (t : ℕ) → In t l → (e ≡ no_thread) ⊎ (l ≡ []) → e ≡ no_thread
unowned e l t j (inl f) = f
unowned e l t j (inr f) = absurd (subst (In t) f j)

-- The members: a writer that waits is counted, and stays counted after `deadlock` has been thrown.
module _ {State V : Type 0} {P : Policy State} {Rep : State → ℕ → ℕ → ℕ → Type 0} (L : Lawful P Rep)
    (W : Validator V) (n : ℕ) (few : n < max_count) (k i : ℕ) (mine : i < n) (w : ℕ)
    (s : Shared State V) where
  abbrev WriterEnds : Outcome (Shared State V) Answer → Type 0
  WriterEnds = Ends Rep n (NoAnswer Rep n W k i s.table) i s.s_owner w (suc w) (suc w)

  abbrev TimedEnds : Outcome (Shared State V) Answer → Type 0
  TimedEnds = Ends Rep n (NoAnswer Rep n W k i s.table) i s.s_owner w w (suc w)

  abbrev ReaderEnds : Outcome (Shared State V) Answer → Type 0
  ReaderEnds = Ends Rep n (NoAnswer Rep n W k i s.table) i s.s_owner w w w

  stays : Held Rep n w s → Held Rep n w s × Grows Rep n i s.s_owner s.s_owner
  stays h = (h, λ x j. inl j)

  new_here : owns P W i s ≡ false → In (tid i) s.s_owner → ⊥
  new_here e = out_of s.s_owner (tid i) (not_owner (s.e_owner == tid i) _ e)

  pub lock_loop-Ends :
      Held Rep n (suc w) s → (In (tid i) s.s_owner → ⊥) → WriterEnds (lock_loop P W k i s)
  unfolding lock_loop
  lock_loop-Ends h new = elim (Bool-cases (P.wait_wlock s.state)) [
    | inl e ↦ rw e (begin_wait-Ends L W n few k i mine w (suc w) (suc w) s h refl new)
    | inr e ↦ rw e (enter-Ends L W n few k i mine w (suc w) (suc w) s h e)
  ]

  pub try_lock_loop-Ends :
      Held Rep n (suc w) s → (In (tid i) s.s_owner → ⊥) → TimedEnds (try_lock_loop P W k i s)
  unfolding try_lock_loop
  try_lock_loop-Ends h new = elim (Bool-cases (P.wait_wlock s.state)) [
    | inl e ↦ rw e (h, refl, new)
    | inr e ↦ rw e (enter-Ends L W n few k i mine w w (suc w) s h e)
  ]

  pub do_try_lockwait_timeout-Ends :
      Held Rep n (suc w) s → TimedEnds (do_try_lockwait_timeout P W k i s)
  unfolding do_try_lockwait_timeout
  do_try_lockwait_timeout-Ends h = elim (Bool-cases (P.wait_wlock s.state)) [
    | inl e ↦
        let (t, f, r) =
          L.after_wait_wlock_rep s.state w (writers s.e_owner) (length s.s_owner) h.0 in
        rw (e, f) ((r, h.1, h.2), λ x j. inl j)
    | inr e ↦ rw e (enter-Ends L W n few k i mine w w (suc w) s h e)
  ]

  pub try_lock-Ends : Held Rep n w s → ReaderEnds (try_lock P W k i s)
  unfolding try_lock
  try_lock-Ends h = elim (Bool-cases (owns P W i s)) [
    | inl e ↦ rw e (stays h)
    | inr e ↦ elim (Bool-cases (P.wait_wlock s.state)) [
      | inl f ↦ rw (e, f) (stays h)
      | inr f ↦ rw (e, f) (take-Ends L W n few k i mine w w w s h f)
    ]
  ]

  pub lock_shared_loop-Ends :
      Held Rep n w s → (In (tid i) s.s_owner → ⊥) → ReaderEnds (lock_shared_loop P W k i s)
  unfolding lock_shared_loop
  lock_shared_loop-Ends h new = elim (Bool-cases (P.wait_rlock s.state)) [
    | inl e ↦ rw e (begin_wait-Ends L W n few k i mine w w w s h refl new)
    | inr e ↦ rw e (take_shared-Ends L W n few k i mine w w w s h e new)
  ]

  pub try_lock_shared_loop-Ends :
      Held Rep n w s → (In (tid i) s.s_owner → ⊥) → ReaderEnds (try_lock_shared_loop P W k i s)
  unfolding try_lock_shared_loop
  try_lock_shared_loop-Ends h new = elim (Bool-cases (P.wait_rlock s.state)) [
    | inl e ↦ rw e (h, refl, new)
    | inr e ↦ rw e (take_shared-Ends L W n few k i mine w w w s h e new)
  ]

  pub do_try_lock_sharedwait_timeout-Ends :
      Held Rep n w s
      → (In (tid i) s.s_owner → ⊥)
      → ReaderEnds (do_try_lock_sharedwait_timeout P W k i s)
  unfolding do_try_lock_sharedwait_timeout
  do_try_lock_sharedwait_timeout-Ends h new = elim (Bool-cases (P.wait_rlock s.state)) [
    | inl e ↦ rw e (stays h)
    | inr e ↦ rw e (take_shared-Ends L W n few k i mine w w w s h e new)
  ]

  pub lock_shared-Ends : Held Rep n w s → ReaderEnds (lock_shared P W k i s)
  unfolding lock_shared
  lock_shared-Ends h = elim (Bool-cases (owns P W i s)) [
    | inl e ↦ rw e (stays h)
    | inr e ↦ rw e (lock_shared_loop-Ends h (new_here e))
  ]

  pub do_try_lock_sharedwait-Ends : Held Rep n w s → ReaderEnds (do_try_lock_sharedwait P W k i s)
  unfolding do_try_lock_sharedwait
  do_try_lock_sharedwait-Ends h = elim (Bool-cases (owns P W i s)) [
    | inl e ↦ rw e (stays h)
    | inr e ↦ rw e (try_lock_shared_loop-Ends h (new_here e))
  ]

  pub try_lock_shared-Ends : Held Rep n w s → ReaderEnds (try_lock_shared P W k i s)
  unfolding try_lock_shared
  try_lock_shared-Ends h = elim (Bool-cases (owns P W i s)) [
    | inl e ↦ rw e (stays h)
    | inr e ↦ elim (Bool-cases (P.wait_rlock s.state)) [
      | inl f ↦ rw (e, f) (stays h)
      | inr f ↦ rw (e, f) (take_shared-Ends L W n few k i mine w w w s h f (new_here e))
    ]
  ]

  pub unlock-Ends : Held Rep n w s → ReaderEnds (unlock P W k i s)
  unfolding unlock
  unlock-Ends h = elim (Bool-cases (s.e_owner == tid i)) [
    | inr e ↦ rw e (stays h)
    | inl e ↦
        let none_shared : s.s_owner ≡ [] = alone s.e_owner s.s_owner i e h.1 in
        let owned : writers s.e_owner ≡ 1 = ground arith in
        let no_reader : length s.s_owner ≡ 0 = ap length none_shared in
        let (t, f, r) = L.release_wlock_rep s.state w (
          subst (λ x. Rep s.state w x 0) owned
            (subst (λ x. Rep s.state w (writers s.e_owner) x) no_reader h.0)) in
        rw (e, f) ((rw no_reader r, inl refl, h.2), λ x j. inl j)
  ]

  pub unlock_shared-Ends : Held Rep n w s → ReaderEnds (unlock_shared P W k i s)
  unfolding unlock_shared
  unlock_shared-Ends h = elim (Bool-cases (contains s.s_owner (tid i))) [
    | inr e ↦ rw e (stays h)
    | inl e ↦
        let here = into s.s_owner (tid i) e in
        let free = unowned s.e_owner s.s_owner (tid i) here h.1 in
        let shorter = length-remove_elem n (tid i) s.s_owner h.2 here in
        let no_writer : writers s.e_owner ≡ 0 = ground (arith, free) in
        let (t, last, f, r, _) =
          L.release_rlock_rep s.state w (length (remove_elem s.s_owner (tid i))) (
            subst (λ x. Rep s.state w x (suc (length (remove_elem s.s_owner (tid i))))) no_writer
              (subst (λ x. Rep s.state w (writers s.e_owner) x) shorter h.0)) in
        rw (e, f)
          (
            (rw no_writer r, inl free, remove_elem-Members n (tid i) s.s_owner h.2),
            λ x j. inl (In-remove_elem s.s_owner (tid i) x j).0,
          )
  ]

-- The members that count the thread as a writer first.
module _ {State V : Type 0} {P : Policy State} {Rep : State → ℕ → ℕ → ℕ → Type 0} (L : Lawful P Rep)
    (W : Validator V) (n : ℕ) (few : n < max_count) (k i : ℕ) (mine : i < n) (w : ℕ)
    (below : w < max_count) (s : Shared State V) (h : Held Rep n w s) where
  pub lock-Ends :
      Ends Rep n (NoAnswer Rep n W k i s.table) i s.s_owner w (suc w) (suc w) (lock P W k i s)
  unfolding lock
  lock-Ends = elim (Bool-cases (owns P W i s)) [
    | inl e ↦ rw e (h, λ x j. inl j)
    | inr e ↦
        let (t, f, r) =
          L.before_wait_wlock_rep s.state w (writers s.e_owner) (length s.s_owner) h.0 below in
        rw (e, f)
          (lock_loop-Ends L W n few k i mine w (record s { state = t }) (r, h.1, h.2)
            (new_here L W n few k i mine w s e))
  ]

  pub do_try_lockwait-Ends :
      Ends Rep n (NoAnswer Rep n W k i s.table) i s.s_owner w w (suc w) (do_try_lockwait P W k i s)
  unfolding do_try_lockwait
  do_try_lockwait-Ends = elim (Bool-cases (owns P W i s)) [
    | inl e ↦ rw e (h, λ x j. inl j)
    | inr e ↦
        let (t, f, r) =
          L.before_wait_wlock_rep s.state w (writers s.e_owner) (length s.s_owner) h.0 below in
        rw (e, f)
          (try_lock_loop-Ends L W n few k i mine w (record s { state = t }) (r, h.1, h.2)
            (new_here L W n few k i mine w s e))
  ]
