-- ===== src/Fair/Shared/GivingUp.antt =====
-- include/fair_shared_mutex.hpp: the wait for an exclusive lock ends by a timeout.
use yamc.Common.{
  ℕ, ◌<◌, ◌≡◌, ◌≢◌, refl, inl, inr, sym, subst, Bool, false, List, [], ◌∷◌, ◌++◌, length,
  length-append, ◌==◌, if◌then◌else◌, Bool-cases, arith,
}
use yamc.Threads.{silent, notify_all, settle}
use yamc.Fair.WaitQueue.{Store, queue, locked, request}
use yamc.Fair.WaitQueue.Chain.{In, Fresh, Queued, last, Distinct-out}
use yamc.Fair.WaitQueue.Members.{In-append, In-erase, Fresh-not_In, not-In-Fresh}
use yamc.Fair.Shared.{masked, impl_try_lockwait_timeout}
use yamc.Fair.Shared.Group.{group, Marked}
use yamc.Fair.Shared.Timeout.{timeout_opens_group}
use yamc.Fair.Shared.Places.{Place, outside, granted}
use yamc.Fair.Shared.Line.{
  Held, free, exclusive, shared, line, Rest, Ordered, LockNode, Shape, Rest-frame, Rest-erase,
}
use yamc.Fair.Shared.Opened.{
  group-In, Groups-after, Rest-after, opened_behind, waits_before, Rest-left, gives_up-Groups,
  opened_change,
}
use yamc.Fair.Shared.Turns.{Told, Quiet-same_front, Kept, TurnKept, Waiter, Exclusively}
use yamc.Fair.Shared.Release.{Rest-Waiting, Shape-Distinct, group_among}

-- The wait of thread `i`, whose request stands between `us` and `ys`, ends by a timeout that opens `os`.
module _ (i : ℕ) (h : Store) (w : Place) (at : Waiter i Exclusively w) (us ys : List ℕ) where
  abbrev between : List ℕ
  between = us ++ request i ∷ ys

  gave_up-Kept :
      (held : Held) (g : Store) (os : List ℕ)
      → Shape h held between
      → Queued g (line held (us ++ ys))
      → Marked os h g
      → ((c : ℕ) → In c os → (h.status c ≡ 1) × In c ys)
      → Ordered g.status held (us ++ ys)
      → Kept i h held between w g held (us ++ ys) outside
  gave_up-Kept held g os v queued marked inner ordered =
      let requests = λ (c : ℕ) (j : In c (us ++ ys)). v.requests c (elim ((In-append c us ys).0 j) [
        | inl k ↦ (In-append c us (request i ∷ ys)).1 (inl k)
        | inr k ↦ (In-append c us (request i ∷ ys)).1 (inr (inr k))
      ]) in
      let no_lock : Fresh locked os = Fresh-not_In locked os (λ j.
        omega (arith, requests locked ((In-append locked us ys).1 (inr (inner locked j).1)))) in
      record {
        shape = record {
          queued = queued;
          lock_node = subst (LockNode held) (sym (marked.1 locked no_lock)) v.lock_node;
          ordered = ordered;
          requests = requests;
        };
        stays = λ c ne. In-erase c (request i) us ys ne;
        others = λ c ne j.
            opened_change h.status g.status os (λ d k. (inner d k).0) marked.0 c (marked.1 c);
        mine =
            not-In-Fresh (request i) (us ++ ys)
              (Distinct-out us (request i) ys (Shape-Distinct h held between v));
        owning = omega (arith, at.no_owner);
        sharing = omega (arith, at.no_sharer);
        queueing =
            omega (arith, at.waiting, length-append us ys, length-append us (request i ∷ ys));
      }

  behind-In : (b c : ℕ) → In c (opened_behind h.status b us ys) → (h.status c ≡ 1) × In c ys
  behind-In b c j = elim (Bool-cases (masked (h.status (last b us)) == 3)) [
    | inl t ↦
        let k = subst (λ (a : Bool). In c (if a then group h.status ys else [])) t j in
        (group-In h.status ys c k, group_among h.status ys c k)
    | inr t ↦ absurd (subst (λ (a : Bool). In c (if a then group h.status ys else [])) t j)
  ]

  short : (fuel : ℕ) → length between < fuel → length ys < fuel
  short fuel lt = omega (arith, length-append us (request i ∷ ys))

  -- It notifies all, or opens nothing.
  told :
      (g : Store) (b : ℕ) (bs cs : List ℕ)
      → Queued h (b ∷ bs ++ request i ∷ cs)
      → Queued g ((b ∷ bs) ++ cs)
      → Marked (if masked (h.status (last b bs)) == 3 then group h.status ys else []) h g
      → Told i h between g (if masked (h.status (last b bs)) == 3 then notify_all else silent)
  told g b bs cs q q' marked = elim (Bool-cases (masked (h.status (last b bs)) == 3)) [
    | inl t ↦ inl (rw t refl)
    | inr t ↦ inr (
        Quiet-same_front i h between g (λ c ne j. marked.1 c (rw t tt)) b (bs ++ request i ∷ cs)
          (bs ++ cs) q q')
  ]

  behind_lock-TurnKept :
      (fuel : ℕ) (held : Held)
      → line held between ≡ locked ∷ between
      → line held (us ++ ys) ≡ locked ∷ (us ++ ys)
      → Shape h held between
      → Rest h.status ys
      → ((g : Store)
          → Marked (opened_behind h.status locked us ys) h g
          → Ordered g.status held (us ++ ys))
      → length between < fuel
      → TurnKept i h held between w (settle granted w (impl_try_lockwait_timeout fuel i h))
  behind_lock-TurnKept fuel held e e' v r ordered lt =
      let (g, run, queued, marked) =
        timeout_opens_group fuel i h locked us ys (subst (Queued h) e v.queued)
          (Rest-Waiting h ys r) (short fuel lt) in
      rw run (
        held,
        us ++ ys,
        gave_up-Kept held g (opened_behind h.status locked us ys) v
            (subst (Queued g) (sym e') queued) marked (behind-In locked) (ordered g marked),
        told g locked us ys (subst (Queued h) e v.queued) queued marked,
      )

exclusive_closed :
    (h : Store) (us zs : List ℕ)
    → h.status locked ≡ 6
    → Rest h.status (us ++ zs)
    → (masked (h.status (last locked us)) == 3) ≡ false
exclusive_closed h [] zs e r = rw e refl
exclusive_closed h (u ∷ us) zs e r =
    waits_before h.status h.status locked zs u us (Rest-left h.status (u ∷ us) zs r)

-- A request for an exclusive lock that is not at the front times out.
pub give_up-TurnKept :
    (i : ℕ) (h : Store) (w : Place) (at : Waiter i Exclusively w) (held : Held) (us ys : List ℕ)
    (fuel : ℕ)
    → Shape h held (us ++ request i ∷ ys)
    → h.status (request i) ≡ 0
    → h.next queue ≢ request i
    → length (us ++ request i ∷ ys) < fuel
    → TurnKept i h held
        (us ++ request i ∷ ys)
        w
        (settle granted w (impl_try_lockwait_timeout fuel i h))
give_up-TurnKept i h w at free [] ys fuel v z ne lt = absurd (ne v.queued.0.0.0)
give_up-TurnKept i h w at free (u ∷ us) ys fuel v z ne lt =
    let r = Groups-after h.status (u ∷ us) (request i) ys v.ordered z in
    let (g, run, queued, marked) =
      timeout_opens_group fuel i h u us ys v.queued (Rest-Waiting h ys r)
        (short i h w at (u ∷ us) ys fuel lt) in
    rw run (
      free,
      (u ∷ us) ++ ys,
      gave_up-Kept i h w at (u ∷ us) ys free g (opened_behind h.status u us ys) v queued marked
          (behind-In i h w at (u ∷ us) ys queue)
          (gives_up-Groups h.status g.status (request i) ys queue (u ∷ us) v.ordered z
            (λ none. absurd (cc)) (Shape-Distinct h free _ v) marked.0 marked.1),
      told i h w at (u ∷ us) ys g u us ys v.queued queued marked,
    )
give_up-TurnKept i h w at exclusive us ys fuel v z ne lt =
    let closed = exclusive_closed h us (request i ∷ ys) v.lock_node v.ordered in
    behind_lock-TurnKept i h w at us ys fuel exclusive refl refl v
      (Rest-after h.status us (request i) ys v.ordered)
      (λ g marked.
        Rest-frame h.status g.status (us ++ ys) (λ c j. marked.1 c (rw closed tt))
          (Rest-erase h.status us (request i) ys v.ordered))
      lt
give_up-TurnKept i h w at (shared c) us ys fuel v z ne lt =
    behind_lock-TurnKept i h w at us ys fuel (shared c) refl refl v
      (Groups-after h.status us (request i) ys v.ordered z)
      (λ g marked.
        gives_up-Groups h.status g.status (request i) ys locked us v.ordered z
          (λ none. rw (v.lock_node.0) (omega arith)) (Shape-Distinct h (shared c) _ v) marked.0
          marked.1)
      lt
