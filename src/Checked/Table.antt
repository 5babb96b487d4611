-- ===== src/Checked/Table.antt =====
-- include/checked_mutex.hpp: what the sections of a checked mutex do to the validator's table.
use yamc.Common.{Bool-cases, ℕ, ◌≡◌, ◌≢◌, refl, List, inl, inr, subst, sym, ◌==◌}
use yamc.Fair.WaitQueue.{update}
use yamc.Fair.WaitQueue.Chain.{In}
use yamc.Validator.{
  Entry, Table, locked, unlocked, dequeue, push_waiter, add_waiter, remove_waiter, add_owner,
  remove_owner, change,
}
use yamc.Validator.WaitsFor.{Waits, Acyclic}
use yamc.Validator.Cycles.{unlocked-Acyclic, dequeue-Acyclic, locked-Acyclic}
use yamc.Validator.Waiters.{
  entry_of, WaitsOff, SameFor, entry_of-change, change-SameFor, In-snoc_self,
}
use yamc.Checked.{Mutexes, Place, outside, reported, in_lock, in_lock_until, woken, tid, no_thread}

-- The table has no cycle, and knows the owner of each mutex that is owned.
pub record Sound (s : Mutexes Table) : Type 0 where
  pub acyclic : Acyclic s.table.mutexmap
  pub known : (k : ℕ) → s.owner k ≢ no_thread → In (s.owner k) (entry_of k s.table.mutexmap).owners

-- The table knows where thread `i` waits, and nowhere else does it.
abbrev pub Fits : ℕ → Place → List Entry → Type 0
Fits i outside m = Waits m (tid i) → ⊥
Fits i (in_lock_until k) m = Waits m (tid i) → ⊥
Fits i (in_lock k) m = In (tid i) (entry_of k m).waiters × (WaitsOff k m (tid i) → ⊥)
Fits i reported m = Waits m (tid i) → ⊥
Fits i (woken k) m = Waits m (tid i) → ⊥

pub SameFor-Fits :
    (i : ℕ) (p : Place) (m m' : List Entry) → SameFor (tid i) m m' → Fits i p m → Fits i p m'
SameFor-Fits i outside m m' (a, b, c) f = λ v. f (a v)
SameFor-Fits i (in_lock_until k) m m' (a, b, c) f = λ v. f (a v)
SameFor-Fits i (in_lock k) m m' (a, b, c) (j, f) = (c k j, λ v. f (b k v))
SameFor-Fits i reported m m' (a, b, c) f = λ v. f (a v)
SameFor-Fits i (woken k) m m' (a, b, c) f = λ v. f (a v)

-- The waiters of every entry stay.
pub owners-SameFor :
    (w k : ℕ) (f : Entry → Entry) (m : List Entry)
    → ((e : Entry) → (f e).key ≡ e.key)
    → ((e : Entry) → (f e).waiters ≡ e.waiters)
    → SameFor w m (change k f m)
owners-SameFor w k f m same kept =
    change-SameFor w k f m same
      (λ e. ((λ i. subst (In w) (kept e) i), λ i. subst (In w) (sym (kept e)) i))

-- The owners of every entry stay.
waiters-known :
    (k j t : ℕ) (f : Entry → Entry) (m : List Entry)
    → ((e : Entry) → (f e).key ≡ e.key)
    → ((e : Entry) → (f e).owners ≡ e.owners)
    → In t (entry_of j m).owners
    → In t (entry_of j (change k f m)).owners
waiters-known k j t f m same kept i =
    rw (entry_of-change k j f m same) (elim (Bool-cases (k == j)) [
      | inl e ↦ rw e (subst (In t) (sym (kept (entry_of j m))) i)
      | inr e ↦ rw e i
    ])

module _ (k i : ℕ) (s : Mutexes Table) (v : Sound s) where
  pub dequeue-Sound : Sound (record s { table = dequeue k (tid i) s.table })
  unfolding dequeue
  dequeue-Sound = record {
    acyclic = dequeue-Acyclic k (tid i) s.table v.acyclic;
    known = λ j ne.
        waiters-known k j (s.owner j) (remove_waiter (tid i)) s.table.mutexmap (λ e. refl)
          (λ e. refl) (v.known j ne);
  }

  pub push_waiter-Sound :
      Acyclic (push_waiter k (tid i) s.table).mutexmap
      → Sound (record s { table = push_waiter k (tid i) s.table })
  push_waiter-Sound a = record {
    acyclic = a;
    known = λ j ne.
        waiters-known k j (s.owner j) (add_waiter (tid i)) s.table.mutexmap (λ e. refl) (λ e. refl)
          (v.known j ne);
  }

  pub locked-Sound :
      (Waits s.table.mutexmap (tid i) → ⊥)
      → Sound (record { owner = update s.owner k (tid i); table = locked k (tid i) s.table })
  unfolding locked
  locked-Sound free = record {
    acyclic = locked-Acyclic k (tid i) s.table v.acyclic free;
    known = λ j ne.
        rw (entry_of-change k j (add_owner (tid i)) s.table.mutexmap (λ e. refl))
          (elim (Bool-cases (k == j)) [
            | inl e ↦ rw e (In-snoc_self (tid i) (entry_of j s.table.mutexmap).owners)
            | inr e ↦ rw e (v.known j (rw e at ne))
          ]);
  }

  pub unlocked-Sound :
      Sound (record { owner = update s.owner k no_thread; table = unlocked k (tid i) s.table })
  unfolding unlocked
  unlocked-Sound = record {
    acyclic = unlocked-Acyclic k (tid i) s.table v.acyclic;
    known = λ j ne.
        rw (entry_of-change k j (remove_owner (tid i)) s.table.mutexmap (λ e. refl))
          (elim (Bool-cases (k == j)) [
            | inl e ↦ rw e (absurd ((rw e at ne) refl))
            | inr e ↦ rw e (v.known j (rw e at ne))
          ]);
  }
