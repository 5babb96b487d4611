-- ===== src/Fair/Shared/Hold.antt =====
-- include/fair_shared_mutex.hpp: how `locked_` and the requests come into the queue and leave it.
use yamc.Common.{
  ℕ, suc, ◌+◌, ◌*◌, ◌^◌, ◌<◌, ◌≤◌, ◌≡◌, ◌≢◌, refl, inl, inr, sym, ap, subst, ◌∙◌, true, false, some,
  List, [], ◌∷◌, ◌++◌, ◌==◌, arith,
}
use yamc.Fair.WaitQueue.{Store, queue, locked, set_status, wq_push_front, wq_push_back, wq_erase}
use yamc.Fair.WaitQueue.Chain.{In, Fresh, Queued, last, Chain-right}
use yamc.Fair.WaitQueue.Members.{In-append, Fresh-not_In}
use yamc.Fair.WaitQueue.Push.{wq_push_front-Queued, wq_push_back-Queued}
use yamc.Fair.WaitQueue.Remove.{wq_erase-Queued}
use yamc.Fair.Shared.{wq_push_locknode}
use yamc.Fair.Shared.Phase.{wq_erase-status, wq_push_back-status}
use yamc.Fair.Shared.Line.{
  Held, free, exclusive, shared, line, Rest, Ordered, LockNode, Shape, Ordered-frame, Ordered-erase,
  Rest-frame,
}

-- No request has changed its status.
abbrev pub Untouched : Store → Store → Type 0
Untouched h g = (c : ℕ) → c ≢ locked → g.status c ≡ h.status c

abbrev Requests : List ℕ → Type 0
Requests l = (c : ℕ) → In c l → 4 ≤ c

pub not_there : (a : ℕ) (l : List ℕ) → a < 4 → Requests l → Fresh a l
not_there a l small r = Fresh-not_In a l (λ j. omega (arith, r a j))

pub front_not_locked : (h : Store) (l : List ℕ) → Queued h l → Requests l → h.next queue ≢ locked
front_not_locked h [] q r = ground arith
front_not_locked h (x ∷ xs) q r = ground (arith, r x (inl refl))

module _ (h : Store) (l : List ℕ) where
  -- `wq_push_locknode` when nobody holds the lock.
  push_first :
      (mode : ℕ)
      → mode < 2
      → Queued h l
      → Requests l
      → (g : Store) × (wq_push_locknode mode h ≡ some g)
        × Queued g (locked ∷ l)
        × (g.status locked ≡ mode + 6)
        × Untouched h g
  unfolding wq_push_locknode wq_push_front
  push_first mode small q r =
      let placed = wq_push_front locked (set_status locked (mode + 2) h) in
      let apart : (h.next queue == locked) ≡ false = ground (arith, front_not_locked h l q r) in
      (
        set_status locked (mode + 6) placed,
        rw apart (ground arith),
        wq_push_front-Queued (set_status locked (mode + 2) h) locked l q
            ((omega arith), not_there locked l (omega arith) r),
        ground arith,
        λ c ne. ground arith,
      )

  -- `wq_push_locknode` of one more shared lock.
  push_again :
      (c : ℕ)
      → suc c < 2 ^ 62
      → Queued h (locked ∷ l)
      → h.status locked ≡ 4 * c + 3
      → (g : Store) × (wq_push_locknode 1 h ≡ some g)
        × Queued g (locked ∷ l)
        × (g.status locked ≡ 4 * suc c + 3)
        × Untouched h g
  unfolding wq_push_locknode
  push_again c room q s =
      let there : (h.next queue == locked) ≡ true = ground arith in
      (
        set_status locked (4 * suc c + 3) h,
        rw there (ground arith),
        q,
        ground arith,
        λ d ne. ground arith,
      )

  pub take_exclusive :
      Queued h l
      → Rest h.status l
      → Requests l
      → (g : Store) × (wq_push_locknode 0 h ≡ some g) × Shape g exclusive l × Untouched h g
  take_exclusive q o r =
      let (g, run, queued, status, same) = push_first 0 (omega arith) q r in
      (
        g,
        run,
        record {
          queued = queued;
          lock_node = status ∙ omega arith;
          ordered = Rest-frame h.status g.status l (λ c j. same c (λ e. omega (arith, r c j))) o;
          requests = r;
        },
        same,
      )

-- How many threads hold the lock together, and once one more does.
abbrev pub count : Held → ℕ
count (shared c) = c
count _ = 0

abbrev pub more : Held → Held
more (shared c) = shared (suc c)
more _ = shared 1

pub take_shared :
    (h : Store) (held : Held) (l : List ℕ)
    → Shape h held l
    → held ≢ exclusive
    → suc (count held) < 2 ^ 62
    → (g : Store) × (wq_push_locknode 1 h ≡ some g) × Shape g (more held) l × Untouched h g
take_shared h exclusive l v ne room = absurd (ne refl)
take_shared h free l v ne room =
    let (g, run, queued, status, same) = push_first h l 1 (omega arith) v.queued v.requests in
    (
      g,
      run,
      record {
        queued = queued;
        lock_node = (status ∙ omega arith, omega arith, omega arith);
        ordered =
            Ordered-frame h.status g.status free l
              (λ c j. same c (λ e. omega (arith, v.requests c j))) v.ordered;
        requests = v.requests;
      },
      same,
    )
take_shared h (shared c) l v ne room =
    let (g, run, queued, status, same) = push_again h l c room v.queued v.lock_node.0 in
    (
      g,
      run,
      record {
        queued = queued;
        lock_node = (status, omega arith, room);
        ordered =
            Ordered-frame h.status g.status (shared c) l
              (λ d j. same d (λ e. omega (arith, v.requests d j))) v.ordered;
        requests = v.requests;
      },
      same,
    )

erase_line :
    (h : Store) (held : Held) (us : List ℕ) (p : ℕ) (ys : List ℕ)
    → Queued h (line held (us ++ p ∷ ys))
    → Queued (wq_erase p h) (line held (us ++ ys))
erase_line h free us p ys q = wq_erase-Queued h p us ys q
erase_line h exclusive us p ys q = wq_erase-Queued h p (locked ∷ us) ys q
erase_line h (shared c) us p ys q = wq_erase-Queued h p (locked ∷ us) ys q

pub erased-status : (h : Store) (p c : ℕ) → (wq_erase p h).status c ≡ h.status c
erased-status h p c = ap (λ f. f c) (wq_erase-status p h)

-- A request that is no exclusive one that waits leaves the queue.
pub erase-Shape :
    (h : Store) (held : Held) (us : List ℕ) (p : ℕ) (ys : List ℕ)
    → Shape h held (us ++ p ∷ ys)
    → h.status p ≢ 0
    → Shape (wq_erase p h) held (us ++ ys)
erase-Shape h held us p ys v ne = record {
  queued = erase_line h held us p ys v.queued;
  lock_node = subst (LockNode held) (sym (erased-status h p locked)) v.lock_node;
  ordered =
      Ordered-erase (wq_erase p h).status held us p ys
        (Ordered-frame h.status (wq_erase p h).status held (us ++ p ∷ ys)
          (λ c j. erased-status h p c) v.ordered)
        (λ e. ne (sym (erased-status h p p) ∙ e));
  requests = λ c j. v.requests c (elim ((In-append c us ys).0 j) [
    | inl k ↦ (In-append c us (p ∷ ys)).1 (inl k)
    | inr k ↦ (In-append c us (p ∷ ys)).1 (inr (inr k))
  ]);
}

abbrev pub join : ℕ → ℕ → Store → Store
join p s h = wq_push_back p (set_status p s h)

pub join-status : (h : Store) (p s c : ℕ) → c ≢ p → (join p s h).status c ≡ h.status c
join-status h p s c ne = ap (λ f. f c) (wq_push_back-status p (set_status p s h)) ∙ ground arith

pub join-status_self : (h : Store) (p s : ℕ) → (join p s h).status p ≡ s
join-status_self h p s = ap (λ f. f p) (wq_push_back-status p (set_status p s h)) ∙ ground arith

join_line :
    (h : Store) (held : Held) (l : List ℕ) (p s : ℕ)
    → Queued h (line held l)
    → 4 ≤ p
    → Fresh p l
    → Queued (join p s h) (line held (l ++ p ∷ []))
join_line h free l p s q big f = wq_push_back-Queued (set_status p s h) p l q ((omega arith), f)
join_line h exclusive l p s q big f =
    wq_push_back-Queued (set_status p s h) p (locked ∷ l) q ((omega arith), ((omega arith), f))
join_line h (shared c) l p s q big f =
    wq_push_back-Queued (set_status p s h) p (locked ∷ l) q ((omega arith), ((omega arith), f))

-- A request comes in at the back.
pub join-Shape :
    (h : Store) (held : Held) (l : List ℕ) (p s : ℕ)
    → Shape h held l
    → 4 ≤ p
    → ¬ In p l
    → (Ordered (join p s h).status held l → Ordered (join p s h).status held (l ++ p ∷ []))
    → Shape (join p s h) held (l ++ p ∷ [])
join-Shape h held l p s v big out ordered = record {
  queued = join_line h held l p s v.queued big (Fresh-not_In p l out);
  lock_node = subst (LockNode held) (sym (join-status h p s locked (omega arith))) v.lock_node;
  ordered = ordered (
      Ordered-frame h.status (join p s h).status held l
        (λ c j. join-status h p s c (λ e. out (subst (λ d. In d l) e j))) v.ordered);
  requests = λ c j. elim ((In-append c l (p ∷ [])).0 j) [
    | inl k ↦ v.requests c k
    | inr k ↦ elim k [ inl e ↦ rw e big | inr n ↦ absurd n ]
  ];
}

-- The back of the queue.
pub back_of : (h : Store) (l : List ℕ) → Queued h l → h.prev queue ≡ last queue l
back_of h l q = (Chain-right h queue l (queue ∷ []) q.0).0.1
