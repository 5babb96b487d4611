-- ===== src/Checked/Deadlocks.antt =====
-- include/checked_mutex.hpp: any number of threads, taking their turns in any order, over mutexes that
-- share the deadlock validator.
use mathlib.Core.WellFounded.{Acc}
use yamc.Common.{
  ℕ, ◌+◌, ◌≡◌, refl, List, [], ◌∷◌, some, ◌⊎◌, inl, inr, subst, sym, ◌∙◌, ap, get_elem?,
  get_elem?-set_self, get_elem?-set_inv, get_elem?-replicate, arith,
}
use yamc.Threads.{System, Step, turn, Reach, Once, Reach-unless}
use yamc.Fair.WaitQueue.{update}
use yamc.Fair.WaitQueue.Chain.{In}
use yamc.Validator.{Table, deadlock, ctor, fresh}
use yamc.Validator.WaitsFor.{Blocks, Waits}
use yamc.Validator.Waiters.{entry_of-Blocks, Waits-change, entry_of}
use yamc.Validator.Cycles.{ctor-Acyclic}
use yamc.Checked.{
  Mutexes, Place, outside, reported, in_lock, tid, no_thread, act, construct, init, mutex,
}
use yamc.Checked.Table.{Sound, Fits, SameFor-Fits}
use yamc.Checked.Sections.{TurnKept, act-TurnKept}

-- Thread `w` waits in `lock` of a mutex that thread `t` owns.
abbrev pub Blocked : System (Mutexes Table) Place → ℕ → ℕ → Type 0
Blocked s t w = (k : ℕ) × (get_elem? s.threads w ≡ some (in_lock k)) × (s.shared.owner k ≡ tid t)

record Inv (s : System (Mutexes Table) Place) : Type 0 where
  sound : Sound s.shared
  fits : (i : ℕ) (p : Place) → get_elem? s.threads i ≡ some p → Fits i p s.shared.table.mutexmap

abbrev pub no_mutexes : Table
no_mutexes = record { counter = 0; mutexmap = [] }

-- A `lock` has just thrown `deadlock`.
abbrev pub DeadlockThrown : System (Mutexes Table) Place → Type 0
DeadlockThrown s = (i : ℕ) × (get_elem? s.threads i ≡ some reported)

module _ (fuel : ℕ) where
  Step-Inv :
      (s t : System (Mutexes Table) Place)
      → Step (act (deadlock fuel)) s t
      → Inv s
      → DeadlockThrown t ⊎ Inv t
  Step-Inv s t (turn i a {p} {p'} {m} at e) v =
      elim (subst (TurnKept i s.shared.table) e
        (act-TurnKept fuel i s.shared v.sound a p (v.fits i p at))) [
          | inl r ↦ inl (i, (get_elem?-set_self s.threads i p' at) ∙ ap some r)
          | inr (o, f, others) ↦ inr (record {
            sound = o;
            fits = λ j q at'. elim (get_elem?-set_inv s.threads i j p' at') [
              | inl (same, now) ↦
                  subst (λ x. Fits x q m.table.mutexmap) same
                    (subst (λ x. Fits i x m.table.mutexmap) (sym now) f)
              | inr (ne, before) ↦
                  SameFor-Fits j q s.shared.table.mutexmap m.table.mutexmap
                    (others j (λ same. ne (sym same))) (v.fits j q before)
            ];
          })
        ]

construct-Sound :
    (fuel : ℕ) (ks : List ℕ)
    → Sound (construct (deadlock fuel) no_mutexes ks)
      × ((k : ℕ) → (construct (deadlock fuel) no_mutexes ks).owner k ≡ no_thread)
      × ((w : ℕ) → Waits (construct (deadlock fuel) no_mutexes ks).table.mutexmap w → ⊥)
unfolding construct mutex deadlock ctor
construct-Sound fuel [] = (
  record { acyclic = λ t. Acc.intro t (λ w b. absurd b); known = λ k ne. absurd (ne refl) },
  (λ k. refl),
  λ w v. v,
)
construct-Sound fuel (k ∷ ks) =
    let (sound, unowned, free) = construct-Sound fuel ks in
    let s = construct (deadlock fuel) no_mutexes ks in
    let unowned' : (j : ℕ) → update s.owner k no_thread j ≡ no_thread =
      λ j. ground (arith, unowned j) in
    (
      record {
        acyclic = ctor-Acyclic k s.table sound.acyclic;
        known = λ j ne. absurd (ne (unowned' j));
      },
      unowned',
      λ w v.
          free w
            (Waits-change w k (fresh (s.table.counter + 1)) (λ e b. absurd b) s.table.mutexmap v),
    )

init-Inv : (fuel n : ℕ) (ks : List ℕ) → Inv (init (deadlock fuel) no_mutexes ks n)
unfolding init
init-Inv fuel n ks =
    let (sound, _, free) = construct-Sound fuel ks in
    record {
      sound = sound;
      fits = λ i p at.
          subst (λ q. Fits i q (construct (deadlock fuel) no_mutexes ks).table.mutexmap)
            (sym (get_elem?-replicate n outside i at)) (free (tid i));
    }

-- The threads that wait in `lock`, through chains of owners, for themselves.
module _ (s : System (Mutexes Table) Place) (v : Inv s) where
  Blocked-Blocks : (t w : ℕ) → Blocked s t w → Blocks s.shared.table.mutexmap (tid t) (tid w)
  Blocked-Blocks t w (k, at, e) =
      entry_of-Blocks k s.shared.table.mutexmap (tid t) (tid w)
        (subst (λ x. In x (entry_of k s.shared.table.mutexmap).owners) e
          (v.sound.known k (λ z. absurd (omega (arith, e, z)))))
        (v.fits w (in_lock k) at).0

  Blocked-Acc :
      (t u : ℕ)
      → u ≡ tid t
      → Acc (λ w x. Blocks s.shared.table.mutexmap x w) u
      → Acc (λ w x. Blocked s x w) t
  Blocked-Acc t u e (Acc.intro _ next) = Acc.intro t (λ w b. Blocked-Acc w (tid w) refl (
      next (tid w)
        (subst (λ x. Blocks s.shared.table.mutexmap x (tid w)) (sym e) (Blocked-Blocks t w b))))

-- Any number of threads, at mutexes that share the deadlock validator, in any interleaving of their critical
-- sections: in each state that they reach no thread waits in `lock`, through chains of owners, for itself,
-- unless a `lock` has thrown `deadlock` in the run before.
pub deadlock_reported :
    (fuel n : ℕ) (ks : List ℕ) (s : System (Mutexes Table) Place)
    (r : Reach (act (deadlock fuel)) (init (deadlock fuel) no_mutexes ks n) s)
    → Once (act (deadlock fuel)) DeadlockThrown r ⊎ ((t : ℕ) → Acc (λ w u. Blocked s u w) t)
deadlock_reported fuel n ks s r =
    elim (Reach-unless (act (deadlock fuel)) DeadlockThrown Inv (Step-Inv fuel) r
      (init-Inv fuel n ks)) [
        | inl q ↦ inl q
        | inr v ↦ inr (λ t. Blocked-Acc s v t (tid t) refl (v.sound.acyclic (tid t)))
      ]
