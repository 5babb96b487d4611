-- ===== src/Fair/Shared/Leaving.antt =====
-- include/fair_shared_mutex.hpp: the end of a shared lock.
use yamc.Common.{
  inl, inr, ℕ, zero, suc, ◌+◌, ◌-◌, ◌*◌, ◌<◌, ◌≡◌, ◌≢◌, refl, inl, ◌∙◌, true, false, List, ◌==◌,
  ◌&&◌, leb, ltb, arith,
}
use yamc.Threads.{returned, silent, notify_all, settle}
use yamc.Fair.WaitQueue.{Store, queue, locked, request, set_status}
use yamc.Fair.WaitQueue.Chain.{In}
use yamc.Fair.Shared.{masked, node_nthread_inc, take_out, impl_unlock_shared}
use yamc.Fair.Shared.Unlock.{take_out-status, take_out-Queued, pop_runs}
use yamc.Fair.Shared.Places.{outside, shared_owner}
use yamc.Fair.Shared.Line.{Held, free, shared, Shape, Ordered-frame}
use yamc.Fair.Shared.Hold.{count, Untouched}
use yamc.Fair.Shared.Turns.{Quiet-same_front, owned, Kept, TurnKept}

module _ (h : Store) (c : ℕ) (l : List ℕ) (v : Shape h (shared (suc c)) l) where
  abbrev less : Store
  less = set_status locked (4 * c + 3) h

  may_unlock_shared :
      ((h.next queue == locked) ≡ true)
      × ((masked (h.status locked) == 3 && leb node_nthread_inc (h.status locked)) ≡ true)
      × (h.status locked - node_nthread_inc ≡ 4 * c + 3)
  may_unlock_shared =
      (ground (arith, v.queued.0.0.0), ground (arith, v.lock_node.0), omega (arith, v.lock_node.0))

  last_leaves : c ≡ 0 → impl_unlock_shared h ≡ returned (take_out less) true notify_all
  unfolding impl_unlock_shared
  last_leaves e =
      let (front, tests, rest) = may_unlock_shared in
      let done : ltb (4 * c + 3) node_nthread_inc ≡ true = ground arith in
      rw (front, tests, rest, done) (rw (pop_runs less v.queued.0.0.0) refl)

  one_leaves : 0 < c → impl_unlock_shared h ≡ returned less true silent
  unfolding impl_unlock_shared
  one_leaves pos =
      let (front, tests, rest) = may_unlock_shared in
      let held : ltb (4 * c + 3) node_nthread_inc ≡ false = ground arith in
      rw (front, tests, rest, held) refl

  less-Untouched : Untouched h less
  less-Untouched d ne = ground arith

  Kept-leaves :
      (i : ℕ) (g : Store) (held : Held)
      → ¬ In (request i) l
      → Shape g held l
      → Untouched h g
      → owned held ≡ 0
      → count held ≡ c
      → Kept i h (shared (suc c)) l shared_owner g held l outside
  Kept-leaves i g held out shape same none counted = record {
    shape = shape;
    stays = λ d ne. (λ j. j, λ j. j);
    others = λ d ne j. inl (same d (λ e. omega (arith, v.requests d j)));
    mine = out;
    owning = omega arith;
    sharing = omega arith;
    queueing = refl;
  }

not_locked : (h : Store) (held : Held) (l : List ℕ) → Shape h held l → (d : ℕ) → In d l → d ≢ locked
not_locked h held l v d j e = omega (arith, v.requests d j)

pub unlock_shared-TurnKept :
    (i : ℕ) (h : Store) (c : ℕ) (l : List ℕ)
    → Shape h (shared (suc c)) l
    → ¬ In (request i) l
    → TurnKept i h
        (shared (suc c))
        l
        shared_owner
        (settle (λ _. outside) shared_owner (impl_unlock_shared h))
unlock_shared-TurnKept i h zero l v out =
    let g = take_out (less h zero l v) in
    let same : Untouched h g =
      λ d ne. take_out-status (less h zero l v) d ne ∙ less-Untouched h zero l v d ne in
    rw (last_leaves h zero l v refl) (
      free,
      l,
      Kept-leaves h zero l v i g free out
          record {
            queued = take_out-Queued (less h zero l v) l v.queued;
            lock_node = tt;
            ordered =
                Ordered-frame h.status g.status free l
                  (λ d j. same d (not_locked h (shared 1) l v d j)) v.ordered;
            requests = v.requests;
          }
          same refl refl,
      inl refl,
    )
unlock_shared-TurnKept i h (suc c) l v out =
    let g = less h (suc c) l v in
    let same = less-Untouched h (suc c) l v in
    rw (one_leaves h (suc c) l v (omega arith)) (
      shared (suc c),
      l,
      Kept-leaves h (suc c) l v i g (shared (suc c)) out
          record {
            queued = v.queued;
            lock_node = (refl, omega arith, omega (arith, v.lock_node.2));
            ordered =
                Ordered-frame h.status g.status (shared (suc c)) l
                  (λ d j. same d (not_locked h (shared (suc (suc c))) l v d j)) v.ordered;
            requests = v.requests;
          }
          same refl refl,
      inr (
          Quiet-same_front i h l g (λ d ne j. same d (not_locked h (shared (suc (suc c))) l v d j))
            locked l l v.queued v.queued),
    )
