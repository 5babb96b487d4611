-- ===== src/Fair/Shared/Wakeups.antt =====
-- include/fair_shared_mutex.hpp: who is notified at a `shared_timed_mutex`.
use yamc.Common.{
  ℕ, ◌^◌, ◌<◌, ◌≡◌, ◌≢◌, inl, inr, subst, Bool, true, false, not, List, some, get_elem?, ◌==◌,
  arith,
}
use yamc.Threads.{System, Action, Notice, notify_all, moved, Reach}
use yamc.Fair.WaitQueue.{Store, queue, request}
use yamc.Fair.Shared.Places.{
  Place, outside, in_lock, in_lock_until, in_lock_shared, in_lock_shared_until, owner, shared_owner,
  Method, act, init,
}
use yamc.Fair.Shared.Turns.{Stands, Quiet, TurnKept}
use yamc.Fair.Shared.Runs.{Reach-Orderly, turn-TurnKept}

-- Whether the test of the wait in which thread `j` stands holds it there.
abbrev pub blocked : ℕ → Place → Store → Bool
blocked j in_lock h = not (h.next queue == request j)
blocked j in_lock_until h = not (h.next queue == request j)
blocked j in_lock_shared h = not (h.status (request j) == 3)
blocked j in_lock_shared_until h = not (h.status (request j) == 3)
blocked j _ h = false

Quiet-blocked :
    (i j : ℕ) (h : Store) (l : List ℕ) (h' : Store) (q : Place)
    → Quiet i h l h'
    → request j ≢ request i
    → Stands j q h.status l
    → blocked j q h ≡ true
    → blocked j q h' ≡ true
Quiet-blocked i j h l h' in_lock quiet ne s was = ground (arith, (quiet (request j) ne s.0).1)
Quiet-blocked i j h l h' in_lock_until quiet ne s was = ground (arith, (quiet (request j) ne s.0).1)
Quiet-blocked i j h l h' in_lock_shared quiet ne s was =
    ground (arith, (quiet (request j) ne s.0).0)
Quiet-blocked i j h l h' in_lock_shared_until quiet ne s was =
    ground (arith, (quiet (request j) ne s.0).0)
Quiet-blocked i j h l h' outside quiet ne s was = was
Quiet-blocked i j h l h' owner quiet ne s was = was
Quiet-blocked i j h l h' shared_owner quiet ne s was = was

-- Fewer than 2 ^ 62 threads, with any scheduling policy, in any interleaving, with waits that time out, and
-- fuel above the number of threads: a turn of one thread after which the wait of another, that had to go on,
-- may end notifies all.
pub fair_shared_wakes :
    (n fuel : ℕ) (phased : Bool)
    → n < 2 ^ 62
    → n < fuel
    → {s : System Store Place} → Reach (act fuel phased) (init n) s
    → (i : ℕ) (a : Action Method) (p : Place) → get_elem? s.threads i ≡ some p
    → (h' : Store) (p' : Place) (notice : Notice)
    → act fuel phased i a s.shared p ≡ moved h' p' notice
    → (j : ℕ) (q : Place) → j ≢ i
    → get_elem? s.threads j ≡ some q
    → blocked j q s.shared ≡ true
    → blocked j q h' ≡ false
    → notice ≡ notify_all
fair_shared_wakes n fuel phased few enough {s} r i a p at h' p' notice e j q ne at_j was is =
    let (held, l, v) = Reach-Orderly n fuel phased few enough r in
    let kept = turn-TurnKept n fuel phased few enough v i a at in
    let (held', l', k, told) = subst (TurnKept i s.shared held l p) e kept in
    elim told [
      | inl all ↦ all
      | inr quiet ↦
          let still_blocked =
            Quiet-blocked i j s.shared l h' q quiet (λ x. ne (omega (arith, x))) (v.stands j q at_j)
              was in
          absurd (cc)
    ]
