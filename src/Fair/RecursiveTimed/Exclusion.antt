-- ===== src/Fair/RecursiveTimed/Exclusion.antt =====
-- include/fair_mutex.hpp: any number of threads at a `recursive_timed_mutex`, taking their turns in any
-- order.
use yamc.Common.{ℕ, ◌≡◌, ◌<◌, inl, inr, sym, subst, refl, map-replicate, get_elem?-replicate, arith}
use yamc.Threads.{System, Reach, start}
use yamc.Fair.WaitQueue as WaitQueue
use yamc.Fair.Timed as Timed
use yamc.Fair.Timed.Safety.{timed_mutual_exclusion, timed_no_assertion_fails}
use yamc.Fair.Counted.{Fits, seen, Sure, Inv, Reach-Inv}
use yamc.Fair.RecursiveTimed.{Mutex, Place, outside, holds, act, init}
use yamc.Fair.RecursiveTimed.Turns.{layer, depth, see, act-TurnGood}

timed-Sure : (n : ℕ) → Sure layer (Timed.init n)
timed-Sure n = record {
  alone = λ s r i j ne. timed_mutual_exclusion n r i j ne;
  no_failure = λ s r i b l at. timed_no_assertion_fails n r i b l at;
  sees = λ p pos.
      elim p as (λ q. 0 < depth q → see q ≡ Timed.owner) [
        | outside ↦ λ h. absurd (omega arith)
        | Place.in_lock ↦ λ h. absurd (omega arith)
        | Place.in_lock_until ↦ λ h. absurd (omega arith)
        | holds c ↦ λ h. refl
      ]
        pos;
}

init-Inv : (n : ℕ) → Inv layer (Timed.init n) (init n)
init-Inv n = record {
  reached =
      subst
        (λ ts. Reach Timed.act (Timed.init n) (record { shared = WaitQueue.init; threads = ts }))
        (sym (map-replicate see n outside)) start;
  fits = λ i p at.
      subst (λ q. Fits layer i q (init n).shared) (sym (get_elem?-replicate n outside i at))
        (inr (omega arith, refl, λ e. cc));
  noted = inl (refl, refl);
}

reached-Inv : (n : ℕ) {s : System Mutex Place} → Reach act (init n) s → Inv layer (Timed.init n) s
reached-Inv n r = Reach-Inv layer act (timed-Sure n) act-TurnGood r (init-Inv n)

-- Any number of threads, in any interleaving, with waits that time out, that call `unlock` only while they
-- hold the mutex and take it less than 2 ^ 64 times: `impl_` and the threads, each seen as the owner of
-- `impl_` while it holds the mutex at least once, are in a state that `timed_mutex` reaches.
recursive_timed_refines :
    (n : ℕ) {s : System Mutex Place}
    → Reach act (init n) s
    → Reach Timed.act (Timed.init n) (seen layer s)
recursive_timed_refines n r = (reached-Inv n r).reached
