-- ===== src/Fair/Recursive/Exclusion.antt =====
-- include/fair_mutex.hpp: any number of threads at a `recursive_mutex`, taking their turns in any order.
use yamc.Common.{
  ℕ, ◌≡◌, ◌≢◌, ◌<◌, inl, inr, some, get_elem?, sym, subst, refl, map-replicate, Bool-cases, ◌==◌,
  get_elem?-replicate, size_mod, arith,
}
use yamc.Threads.{System, Reach, start, Action, call, wake, failed}
use yamc.Fair.Recursive.{Mutex, tid}
use yamc.Fair.Recursive.Places.{Place, outside, in_lock, holds, Method, act, init}
use yamc.Fair.Recursive.Turns.{layer, depth, see, act-TurnGood}
use yamc.Fair.Ticket as Ticket
use yamc.Fair.Ticket.Safety.{ticket_mutual_exclusion}
use yamc.Fair.Counted.{Fits, seen, Sure, Inv, Reach-Inv, never_fails, only_one}

ticket_never_fails :
    (i : ℕ) (a : Action Ticket.Method) (m : Ticket.Mutex) (p : Ticket.Place)
    → Ticket.act i a m p ≢ failed
unfolding Ticket.act Ticket.lock Ticket.try_lock Ticket.unlock Ticket.lock_loop
ticket_never_fails i (call Ticket.locks) m Ticket.outside = elim (Bool-cases (m.next == m.curr)) [
  | inl e ↦ rw e (λ f. cc)
  | inr e ↦ rw e (λ f. cc)
]
ticket_never_fails i (call Ticket.try_locks) m Ticket.outside =
    elim (Bool-cases (m.next == m.curr)) [ inl e ↦ rw e (λ f. cc) | inr e ↦ rw e (λ f. cc) ]
ticket_never_fails i (wake t) m (Ticket.in_lock request) = elim (Bool-cases (request == m.curr)) [
  | inl e ↦ rw e (λ f. cc)
  | inr e ↦ rw e (λ f. cc)
]
ticket_never_fails i (call Ticket.unlocks) m Ticket.owner = λ f. cc
ticket_never_fails i _ m p = λ f. cc

ticket-Sure : (n : ℕ) → n < size_mod → Sure layer (Ticket.init n)
ticket-Sure n few = record {
  alone = λ s r i j ne at_i at_j. ne (ticket_mutual_exclusion n few r i j at_i at_j);
  no_failure = λ s r i b l at. ticket_never_fails i b s.shared l;
  sees = λ p pos.
      elim p as (λ q. 0 < depth q → see q ≡ Ticket.owner) [
        | outside ↦ λ h. absurd (omega arith)
        | in_lock request ↦ λ h. absurd (omega arith)
        | holds c ↦ λ h. refl
      ]
        pos;
}

init-Inv : (n : ℕ) → Inv layer (Ticket.init n) (init n)
init-Inv n = record {
  reached =
      subst
        (λ ts.
          Reach Ticket.act (Ticket.init n)
            (record { shared = record { next = 0; curr = 0 }; threads = ts }))
        (sym (map-replicate see n outside)) start;
  fits = λ i p at.
      subst (λ q. Fits layer i q (init n).shared) (sym (get_elem?-replicate n outside i at))
        (inr (omega arith, refl, λ e. cc));
  noted = inl (refl, refl);
}

reached-Inv :
    (n : ℕ) {s : System Mutex Place}
    → n < size_mod
    → Reach act (init n) s
    → Inv layer (Ticket.init n) s
reached-Inv n few r = Reach-Inv layer act (ticket-Sure n few) act-TurnGood r (init-Inv n)

-- Below 2 ^ 64 threads, in any interleaving, that call `unlock` only while they hold the mutex and take it
-- less than 2 ^ 64 times: the tickets and the threads, each seen as the owner while it holds the mutex at
-- least once, are in a state that `mutex` reaches.
pub recursive_refines :
    (n : ℕ) {s : System Mutex Place}
    → n < size_mod
    → Reach act (init n) s
    → Reach Ticket.act (Ticket.init n) (seen layer s)
recursive_refines n few r = (reached-Inv n few r).reached

-- In the same runs, a thread that has taken the mutex `c` times more than it has unlocked it, at least once,
-- owns it and is counted `c` times, and no other thread has taken it. No turn of any thread fails an
-- assertion.
fair_recursive_exclusion :
    (n : ℕ) {s : System Mutex Place}
    → n < size_mod
    → Reach act (init n) s
    → (i c : ℕ) → get_elem? s.threads i ≡ some (holds c)
    → 0 < c
    → (s.shared.owner ≡ tid i)
      × (s.shared.ncount ≡ c)
      × ((j : ℕ) (q : Place) → j ≢ i → get_elem? s.threads j ≡ some q → depth q ≡ 0)
      × ((j : ℕ) (a : Action Method) (q : Place)
          → get_elem? s.threads j ≡ some q
          → act j a s.shared q ≢ failed)
fair_recursive_exclusion n {s} few r i c at pos =
    let v = reached-Inv n few r in
    let sure = ticket-Sure n few in
    let (mine, counted, others) = only_one layer act sure act-TurnGood s v i (holds c) at pos in
    (mine, counted, others, λ j a q at_j. never_fails layer act sure act-TurnGood s j a q v at_j)
