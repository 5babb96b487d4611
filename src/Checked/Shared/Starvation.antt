-- ===== src/Checked/Shared/Starvation.antt =====
-- include/checked_shared_mutex.hpp: under `WriterPrefer` a `lock` that throws `deadlock` leaves the thread
-- counted as a waiting writer.
use yamc.Common.{
  ℕ, ◌+◌, ◌≤◌, ◌<◌, ◌≡◌, refl, some, List, ◌==◌, arith, subst, sym, true, length, total,
  total-get_elem?, get_elem?, ◌⊎◌, inl, inr, eq_or_ne, get_elem?-set_ne,
}
use yamc.Threads.{moved, Action, System, Reach, start, later, turn, Once, Notice}
use yamc.RwLock.Policy.{Policy, max_count}
use yamc.RwLock.WriterPrefer
use yamc.RwLock.WriterPrefer.{writer_prefer}
use yamc.RwLock.WriterPrefer.Laws
use yamc.RwLock.WriterPrefer.Laws.{writer_prefer-Lawful}
use yamc.Validator.{Validator}
use yamc.Checked.Shared.Places.{Mutexes, Place, reported, Method, act, init}
use yamc.Checked.Shared.Turns.{waits, leaves}
use yamc.Checked.Shared.Exclusion.{leaks, Reach-Inv}
use yamc.Checked.Shared.Closed.{TurnShrinks, act-Shrinks}

-- A state that counts a waiting writer keeps the readers out.
counted_busy :
    (x : WriterPrefer.State) (c w r : ℕ)
    → Laws.Rep x c w r
    → 0 < c
    → WriterPrefer.wait_rlock x ≡ true
unfolding WriterPrefer.wait_rlock
counted_busy x c w r h pos = ground arith

-- Some thread's last call, a `lock` of mutex `k`, has thrown `deadlock`.
abbrev pub ReportedAt : {State V : Type 0} → ℕ → System (Mutexes State V) Place → Type 0
ReportedAt k s = (j : ℕ) × (get_elem? s.threads j ≡ some (reported k))

module _ {State V : Type 0} (P : Policy State) (W : Validator V) where
  Once-leaks :
      (k : ℕ) {s t : System (Mutexes State V) Place} (r : Reach (act P W) s t)
      → Once (act P W) (ReportedAt k) r
      → 1 ≤ leaks P W k r ⊎ ReportedAt k t
  unfolding leaks
  Once-leaks k start o = inr o
  Once-leaks k (later r st) (inr o) = inr o
  Once-leaks k (later {t} r (turn i a {p} {p'} at e)) (inl o) = elim (Once-leaks k r o) [
    | inl l ↦ inl (omega arith)
    | inr (j, here) ↦ elim (eq_or_ne j i) [
      | inl same ↦
          let mine : get_elem? t.threads i ≡ some (reported k) =
            subst (λ x. get_elem? t.threads x ≡ some (reported k)) same here in
          let stood : p ≡ reported k = cc in
          let self : (k == k) ≡ true = ground arith in
          let one : leaves k p ≡ 1 = rw (stood, self) refl in inl (omega (arith, one))
      | inr ne ↦ let kept = get_elem?-set_ne t.threads i j p' (λ same. ne (sym same)) in inr (j, cc)
    ]
  ]

-- Under `WriterPrefer` and over any validator: once a `lock` of a mutex has thrown `deadlock`, in every state
-- that is reached after it, whatever that thread and the others have done since, no turn of any thread adds a
-- shared owner to that mutex, whoever owns it, or if nobody does. The policy goes on counting that call as a
-- waiting writer. The number of threads and of such calls is below 2 ^ 63 - 1 for each mutex.
pub reported_lock_starves_readers :
    {V : Type 0} (W : Validator V) (n : ℕ) (v : V) (ks : List ℕ)
    {s : System (Mutexes WriterPrefer.State V) Place}
    → (r : Reach (act writer_prefer W) (init writer_prefer W v ks n) s)
    → ((k : ℕ) → n + leaks writer_prefer W k r < max_count)
    → (k : ℕ) → Once (act writer_prefer W) (ReportedAt k) r
    → (i : ℕ) (a : Action Method) {p p' : Place} {t : Mutexes WriterPrefer.State V} {m : Notice}
    → get_elem? s.threads i ≡ some p
    → act writer_prefer W i a s.shared p ≡ moved t p' m
    → length (t.s_owners k) ≤ length (s.shared.s_owners k)
reported_lock_starves_readers W n v ks {s} r few k once i a {p} at_i e =
    let inv = Reach-Inv writer_prefer-Lawful W n v ks r few in
    let counted : 0 < total (waits k) s.threads + leaks writer_prefer W k r =
      elim (Once-leaks writer_prefer W k r once) [
        | inl l ↦ omega arith
        | inr (j, at_j) ↦
            let self : (k == k) ≡ true = ground arith in
            let one : waits k (reported k) ≡ 1 = ground (arith, self) in
            omega (arith, one, total-get_elem? (waits k) s.threads j at_j)
      ] in
    let busy = counted_busy (s.shared.states k) _ _ _ (inv.held k).0 counted in
    subst (TurnShrinks writer_prefer W i k s.shared busy) e
      (act-Shrinks writer_prefer W i k s.shared busy a p)
