-- ===== src/Fair/Ticket/Safety.antt =====
-- include/fair_mutex.hpp: what holds of `yamc::fair::mutex` whatever the threads do.
use yamc.Common.{
  ◌%◌, ◌+◌, refl, inr, get_elem?-replicate, inl, ◌∷◌, false, total-replicate_zero, length-replicate,
  arith, ◌⊎◌, get_elem?, [], List, size_mod, ℕ, ◌<◌, ◌≡◌, some,
}
use yamc.Threads.{moved, Reach-inv, System, Reach}
use yamc.Fair.Ticket.{silent, wake, lock_loop, Mutex, Place, outside, in_lock, owner, act, init}
use yamc.Fair.Ticket.Line.{owner_front, inside, Stands}
use yamc.Fair.Ticket.Order.{Step-Serve}

abbrev InLine : System Mutex Place → Type 0
InLine s = (line : List ℕ) × Stands s line

init-Stands : (n : ℕ) → n < size_mod → Stands (init n) []
init-Stands n few = record {
  next_ticket = refl;
  word = omega arith;
  few = omega (arith, length-replicate n outside);
  all_in = total-replicate_zero inside n outside refl;
  at = λ d i e. cc;
  found = λ i p e. inl (get_elem?-replicate n outside i e);
}

Reach-InLine : (n : ℕ) {s : System Mutex Place} → n < size_mod → Reach act (init n) s → InLine s
Reach-InLine n few r =
    Reach-inv act InLine (λ s t st v. let (line, _, w) = Step-Serve v.0 v.1 st in (line, w)) r
      ([], init-Stands n few)

-- Below 2 ^ 64 threads, whatever wraps round: two threads never own the lock together.
pub ticket_mutual_exclusion :
    (n : ℕ) {s : System Mutex Place}
    → n < size_mod
    → Reach act (init n) s
    → (i j : ℕ) → get_elem? s.threads i ≡ some owner
    → get_elem? s.threads j ≡ some owner
    → i ≡ j
ticket_mutual_exclusion n {s} few r i j at_i at_j =
    let v = (Reach-InLine n few r).1 in cc (owner_front v i at_i, owner_front v j at_j)

front_of :
    (line : List ℕ) (d : ℕ) {i : ℕ}
    → get_elem? line d ≡ some i
    → (j : ℕ) × (get_elem? line 0 ≡ some j)
front_of [] d e = cc
front_of (x ∷ line) d e = (x, refl)

-- Below 2 ^ 64 threads: if a thread waits in `lock`, then some thread owns the lock, or some thread
-- that waits will own it as soon as it wakes.
pub ticket_no_deadlock :
    (n : ℕ) {s : System Mutex Place} (request : ℕ)
    → n < size_mod
    → Reach act (init n) s
    → (i : ℕ) → get_elem? s.threads i ≡ some (in_lock request)
    → (j : ℕ) × (p : Place) × (get_elem? s.threads j ≡ some p)
      × ((p ≡ owner) ⊎ (act j (wake false) s.shared p ≡ moved s.shared owner silent))
unfolding act lock_loop
ticket_no_deadlock n {s} request few r i here =
    let (line, v) = Reach-InLine n few r in
    elim (v.found i (in_lock request) here) [
      | inl out ↦ cc
      | inr (d, q) ↦
          let (j, front) = front_of line d q in
          elim (v.at 0 j front) [
            | inl waits ↦
                (j, in_lock ((s.shared.curr + 0) % size_mod), waits, inr (ground (arith, v.word)))
            | inr (_, owns) ↦ (j, owner, owns, inl refl)
          ]
    ]
