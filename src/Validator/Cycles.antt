-- ===== src/Validator/Cycles.antt =====
-- include/yamc_lock_validator.hpp: the members keep the table free of cycles, and `enqueue` tells
-- whether it stays so.
use mathlib.Core.WellFounded.{Acc}
use yamc.Common.{
  ◌+◌, arith, [], ◌∷◌, ◌∷◌, ℕ, ◌≤◌, ◌≡◌, ◌≢◌, Bool, true, false, some, List, ◌⊎◌, inl, inr, subst,
  sym,
}
use yamc.Validator.{
  Entry, Table, ctor, dtor, locked, unlocked, dequeue, push_waiter, enqueue, find_closepath,
}
use yamc.Validator.WaitsFor.{Blocks, BlocksBut, Waits, Leads, owner, via, Acyclic, Blocks-BlocksBut}
use yamc.Validator.Search.{Says, search-Decided}
use yamc.Validator.Fuel.{enqueue_runs, enqueue_monotone}
use yamc.Validator.Changes.{
  push_waiter-BlocksBut, push_waiter-Blocks, locked-Blocks, unlocked-Blocks, dequeue-Blocks,
  ctor-Blocks, dtor-Blocks,
}

-- Fewer waits, no new cycles.
fewer_Acc :
    (m m' : List Entry)
    → ((t w : ℕ) → Blocks m' t w → Blocks m t w)
    → (t : ℕ) → Acc (λ w u. Blocks m u w) t
    → Acc (λ w u. Blocks m' u w) t
fewer_Acc m m' sub t (Acc.intro _ next) =
    Acc.intro t (λ w b. fewer_Acc m m' sub w (next w (sub t w b)))

blocked-Waits : (m : List Entry) (t w : ℕ) → Blocks m t w → Waits m w
blocked-Waits [] t w b = b
blocked-Waits (e ∷ m) t w (inl (o, i)) = inl i
blocked-Waits (e ∷ m) t w (inr b) = inr (blocked-Waits m t w b)

module _ (k tid : ℕ) (s : Table) (a : Acyclic s.mutexmap) where
  pub unlocked-Acyclic : Acyclic (unlocked k tid s).mutexmap
  unlocked-Acyclic t =
      fewer_Acc s.mutexmap (unlocked k tid s).mutexmap (λ u w b. unlocked-Blocks k s u w tid b) t
        (a t)

  pub dequeue-Acyclic : Acyclic (dequeue k tid s).mutexmap
  dequeue-Acyclic t =
      fewer_Acc s.mutexmap (dequeue k tid s).mutexmap (λ u w b. dequeue-Blocks k s u w tid b) t
        (a t)

  -- A thread that waits for nothing may take a mutex that others wait for.
  module _ (free : Waits s.mutexmap tid → ⊥) where
    locked_other :
        (t : ℕ)
        → Acc (λ w u. Blocks s.mutexmap u w) t
        → t ≢ tid
        → Acc (λ w u. Blocks (locked k tid s).mutexmap u w) t
    locked_other t (Acc.intro _ next) ne = Acc.intro t (λ w b. elim (locked-Blocks k s t w tid b) [
      | inl c ↦
          locked_other w (next w c)
            (λ e. free (subst (Waits s.mutexmap) e (blocked-Waits s.mutexmap t w c)))
      | inr (e, _) ↦ absurd (ne e)
    ])

    pub locked-Acyclic : Acyclic (locked k tid s).mutexmap
    locked-Acyclic t = Acc.intro t (λ w b. elim (locked-Blocks k s t w tid b) [
      | inl c ↦
          locked_other w (a w)
            (λ e. free (subst (Waits s.mutexmap) e (blocked-Waits s.mutexmap t w c)))
      | inr (_, v) ↦ locked_other w (a w) (λ e. free (subst (Waits s.mutexmap) e v))
    ])

pub ctor-Acyclic : (k : ℕ) (s : Table) → Acyclic s.mutexmap → Acyclic (ctor k s).mutexmap
ctor-Acyclic k s a t =
    fewer_Acc s.mutexmap (ctor k s).mutexmap (λ u w b. ctor-Blocks k s u w b) t (a t)

pub dtor-Acyclic : (k : ℕ) (s : Table) → Acyclic s.mutexmap → Acyclic (dtor k s).mutexmap
dtor-Acyclic k s a t =
    fewer_Acc s.mutexmap (dtor k s).mutexmap (λ u w b. dtor-Blocks k s u w b) t (a t)

module _ (k tid : ℕ) (s : Table) (a : Acyclic s.mutexmap) where
  abbrev pub waiting_table : List Entry
  waiting_table = (push_waiter k tid s).mutexmap

  -- The search does not follow the waiters of the mutex itself, so it sees no new wait.
  old_wait : (t w : ℕ) → BlocksBut k waiting_table t w → Blocks s.mutexmap t w
  old_wait t w b = push_waiter-BlocksBut k tid s.mutexmap t w b

  search_Acc :
      (t : ℕ) → Acc (λ w u. Blocks s.mutexmap u w) t → Acc (λ w u. BlocksBut k waiting_table u w) t
  search_Acc t (Acc.intro _ next) = Acc.intro t (λ w b. search_Acc w (next w (old_wait t w b)))

  open_chain :
      (t : ℕ)
      → Acc (λ w u. Blocks s.mutexmap u w) t
      → (Leads waiting_table k t → ⊥)
      → Acc (λ w u. Blocks waiting_table u w) t
  open_chain t (Acc.intro _ next) free_end = Acc.intro t (λ w b.
      elim (Blocks-BlocksBut k waiting_table t w b) [
        | inl c ↦ open_chain w (next w (old_wait t w c)) (λ l. free_end (via c l))
        | inr o ↦ absurd (free_end (owner o))
      ])

  still-Acyclic :
      (Leads waiting_table k tid → ⊥)
      → (t : ℕ) → Acc (λ w u. Blocks s.mutexmap u w) t
      → Acc (λ w u. Blocks waiting_table u w) t
  still-Acyclic free_end t (Acc.intro _ next) = Acc.intro t (λ w b.
      elim (push_waiter-Blocks k s t w tid b) [
        | inl c ↦ still-Acyclic free_end w (next w c)
        | inr (e, o) ↦
            subst (Acc (λ w u. Blocks waiting_table u w)) (sym e) (open_chain tid (a tid) free_end)
      ])

  -- What `enqueue` answers, whenever its fuel is at least `n`.
  abbrev pub Answers : ℕ → Type 0
  Answers n =
      (((fuel : ℕ) → n ≤ fuel → enqueue fuel k tid s ≡ some (true, push_waiter k tid s))
        × Acyclic waiting_table)
      ⊎ (((fuel : ℕ) → n ≤ fuel → enqueue fuel k tid s ≡ some (false, push_waiter k tid s))
          × Leads waiting_table k tid)

  answered :
      (n : ℕ) (b : Bool)
      → ((fuel : ℕ) → n ≤ fuel → find_closepath fuel waiting_table k tid ≡ some b)
      → Says b (Leads waiting_table k tid)
      → Answers n
  answered n true f says = inr ((λ fuel h. enqueue_runs k tid s fuel true (f fuel h)), says)
  answered n false f says =
      inl
        ((λ fuel h. enqueue_runs k tid s fuel false (f fuel h)), (λ t. still-Acyclic says t (a t)))

  -- In a table without a cycle `enqueue` returns, given enough fuel. It returns `true` where the table
  -- stays without a cycle, and `false` where the thread now waits, through others or not, for itself.
  pub enqueue_decides :
      (n : ℕ) × ((((fuel : ℕ) → n ≤ fuel → enqueue fuel k tid s ≡ some (true, push_waiter k tid s))
          × Acyclic waiting_table)
        ⊎ (((fuel : ℕ) → n ≤ fuel → enqueue fuel k tid s ≡ some (false, push_waiter k tid s))
            × Leads waiting_table k tid))
  unfolding enqueue
  enqueue_decides =
      let (b, n, f, says) = search-Decided waiting_table k tid (search_Acc tid (a tid)) in
      (n, answered n b f says)

  agreed :
      (n m : ℕ)
      → n ≤ m
      → Answers n
      → {t : Table} → enqueue m k tid s ≡ some (true, t)
      → Acyclic waiting_table
  agreed n m h (inl (f, c)) e = c
  agreed n m h (inr (f, l)) e = absurd (ground (arith, f m h, e))

  -- A table that `enqueue` lets a thread wait in has no cycle.
  pub enqueue-Acyclic :
      (fuel : ℕ) (t : Table) → enqueue fuel k tid s ≡ some (true, t) → Acyclic t.mutexmap
  enqueue-Acyclic fuel t h =
      let (n, answers) = enqueue_decides in
      let (e, same) = enqueue_monotone k tid s n fuel true t h in
      subst (λ u. Acyclic u.mutexmap) (sym same) (agreed n (fuel + n) (omega arith) answers e)
