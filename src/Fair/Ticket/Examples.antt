-- ===== src/Fair/Ticket/Examples.antt =====
-- include/fair_mutex.hpp: the theorems about `yamc::fair::mutex` at a concrete run.
use yamc.Common.{
  inl, inr, zero, suc, get_elem?, some, ◌⊎◌, false, ◌⊎◌, some, get_elem?, ℕ, ◌≡◌, refl, [], ◌∷◌,
  arith,
}
use yamc.Threads.{System, Reach, start, later, turn, call, moved, silent, wake}
use yamc.Fair.Ticket.{Mutex, Place, outside, in_lock, owner, locks, unlocks, act, init}
use yamc.Fair.Ticket.Line.{Stands, At}
use yamc.Fair.Ticket.Order.{Follows, Step-Serve}
use yamc.Fair.Ticket.Safety.{ticket_mutual_exclusion, ticket_no_deadlock}

-- Thread 0 owns the lock, thread 1 waits for it.
abbrev contended : System Mutex Place
contended = record { shared = record { next = 2; curr = 0 }; threads = owner ∷ in_lock 1 ∷ [] }

contended_reached : Reach act (init 2) contended
unfolding act
contended_reached =
    later (later start (turn 0 (call locks) refl refl)) (turn 1 (call locks) refl refl)

contended-At : (d i : ℕ) → get_elem? (0 ∷ 1 ∷ []) d ≡ some i → At contended d i
contended-At zero i e = inr (refl, ground arith)
contended-At (suc zero) i e = inl (ground arith)
contended-At (suc (suc d)) i e = cc

contended_found :
    (i : ℕ) (p : Place)
    → get_elem? contended.threads i ≡ some p
    → (p ≡ outside) ⊎ ((d : ℕ) × (get_elem? (0 ∷ 1 ∷ []) d ≡ some i))
contended_found zero p e = inr (0, refl)
contended_found (suc zero) p e = inr (1, refl)
contended_found (suc (suc i)) p e = cc

contended-Stands : Stands contended (0 ∷ 1 ∷ [])
contended-Stands = record {
  next_ticket = refl;
  word = omega arith;
  few = omega arith;
  all_in = refl;
  at = contended-At;
  found = contended_found;
}

ticket_mutual_exclusion_example : ◌≡◌ {A = ℕ} 0 0
ticket_mutual_exclusion_example =
    ticket_mutual_exclusion 2 (omega arith) contended_reached 0 0 refl refl

ticket_no_deadlock_example :
    (j : ℕ) × (p : Place) × (get_elem? contended.threads j ≡ some p)
    × ((p ≡ owner) ⊎ (act j (wake false) contended.shared p ≡ moved contended.shared owner silent))
ticket_no_deadlock_example = ticket_no_deadlock 2 1 (omega arith) contended_reached 1 refl

Step-Serve_example :
    Follows
      (record { shared = record { next = 2; curr = 1 }; threads = outside ∷ in_lock 1 ∷ [] })
      (0 ∷ 1 ∷ [])
unfolding act
Step-Serve_example =
    Step-Serve {s = contended} (0 ∷ 1 ∷ []) contended-Stands (turn 0 (call unlocks) refl refl)
