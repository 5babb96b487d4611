-- ===== src/Fair/Shared/Turns.antt =====
-- include/fair_shared_mutex.hpp: what a turn of a thread has to leave.
use yamc.Common.{
  arith, ℕ, suc, ◌+◌, ◌^◌, ◌<◌, ◌≤◌, ◌≡◌, ◌≢◌, ◌⊎◌, ◌↔◌, refl, sym, ◌∙◌, ◌∷◌, inl, List, length,
}
use yamc.Threads.{Turn, moved, refused, failed, Notice, notify_all}
use yamc.Fair.WaitQueue.{Store, queue, locked, request}
use yamc.Fair.WaitQueue.Chain.{In, Queued}
use yamc.Fair.Shared.Places.{
  Place, outside, in_lock, in_lock_until, in_lock_shared, in_lock_shared_until, owner, shared_owner,
}
use yamc.Fair.Shared.Line.{Held, exclusive, Shape}
use yamc.Fair.Shared.Hold.{count}

abbrev pub owns : Place → ℕ
owns owner = 1
owns _ = 0

abbrev pub shares : Place → ℕ
shares shared_owner = 1
shares _ = 0

abbrev pub waits : Place → ℕ
waits in_lock = 1
waits in_lock_until = 1
waits in_lock_shared = 1
waits in_lock_shared_until = 1
waits _ = 0

abbrev pub owned : Held → ℕ
owned exclusive = 1
owned _ = 0

-- A thread that waits has its request in the queue, with a status that fits, and no other thread has.
abbrev pub Stands : ℕ → Place → (ℕ → ℕ) → List ℕ → Type 0
Stands i in_lock st l = In (request i) l × (st (request i) ≡ 0)
Stands i in_lock_until st l = In (request i) l × (st (request i) ≡ 0)
Stands i in_lock_shared st l = In (request i) l × ((st (request i) ≡ 1) ⊎ (st (request i) ≡ 3))
Stands i in_lock_shared_until st l =
    In (request i) l × ((st (request i) ≡ 1) ⊎ (st (request i) ≡ 3))
Stands i outside st l = ¬ In (request i) l
Stands i owner st l = ¬ In (request i) l
Stands i shared_owner st l = ¬ In (request i) l

-- From a store in which `held` and `l` stand, with thread `i` at `p`, to another: the requests of the other
-- threads stay in the queue, and their statuses change from that of a waiting shared one to that of one
-- that may lock, or not at all; the numbers of owners and of requests keep in step.
pub record Kept (i : ℕ) (h : Store) (held : Held) (l : List ℕ) (p : Place) (h' : Store)
    (held' : Held) (l' : List ℕ) (p' : Place) : Type 0 where
  pub shape : Shape h' held' l'
  pub stays : (c : ℕ) → c ≢ request i → In c l ↔ In c l'
  pub others :
      (c : ℕ)
      → c ≢ request i
      → In c l
      → (h'.status c ≡ h.status c) ⊎ ((h.status c ≡ 1) × (h'.status c ≡ 3))
  pub mine : Stands i p' h'.status l'
  pub owning : owns p + owned held' ≡ owns p' + owned held
  pub sharing : shares p + count held' ≡ shares p' + count held
  pub queueing : waits p + length l' ≡ waits p' + length l

-- No thread but `i` can go on that could not before: no request comes to the front or gets another status.
abbrev pub Quiet : ℕ → Store → List ℕ → Store → Type 0
Quiet i h l h' =
    (c : ℕ)
    → c ≢ request i
    → In c l
    → (h'.status c ≡ h.status c) × (h'.next queue ≡ c → h.next queue ≡ c)

abbrev pub Told : ℕ → Store → List ℕ → Store → Notice → Type 0
Told i h l h' n = (n ≡ notify_all) ⊎ Quiet i h l h'

abbrev pub TurnKept : ℕ → Store → Held → List ℕ → Place → Turn Store Place → Type 0
TurnKept i h held l p (moved h' p' n) =
    (held' : Held) × (l' : List ℕ) × Kept i h held l p h' held' l' p' × Told i h l h' n
TurnKept i h held l p refused = Unit {0}
TurnKept i h held l p failed = ⊥

-- What is known before it.
pub record Ready (i : ℕ) (h : Store) (held : Held) (l : List ℕ) (p : Place) : Type 0 where
  pub shape : Shape h held l
  pub stands : Stands i p h.status l
  pub may_own : owns p ≤ owned held
  pub may_share : shares p ≤ count held
  pub room : shares p ≡ 0 → suc (count held) < 2 ^ 62

module _ (i : ℕ) (h : Store) (held : Held) (l : List ℕ) where
  -- Nothing changes but the place of a thread that has no part in it.
  pub still :
      (p p' : Place)
      → Shape h held l
      → Stands i p' h.status l
      → owns p ≡ owns p'
      → shares p ≡ shares p'
      → waits p ≡ waits p'
      → Kept i h held l p h held l p'
  still p p' v s a b c = record {
    shape = v;
    stays = λ d ne. (λ j. j, λ j. j);
    others = λ d ne j. inl refl;
    mine = s;
    owning = omega arith;
    sharing = omega arith;
    queueing = omega arith;
  }

abbrev pub SameStatus : ℕ → Store → List ℕ → Store → Type 0
SameStatus i h l h' = (c : ℕ) → c ≢ request i → In c l → h'.status c ≡ h.status c

module _ (i : ℕ) (h : Store) (l : List ℕ) (h' : Store) (same : SameStatus i h l h') where
  pub Quiet-behind_lock : ((c : ℕ) → In c l → 4 ≤ c) → h'.next queue ≡ locked → Quiet i h l h'
  Quiet-behind_lock requests front c ne j =
      (same c ne j, λ e. absurd (omega (arith, requests c j, e, front)))

  pub Quiet-same_front :
      (x : ℕ) (xs xs' : List ℕ) → Queued h (x ∷ xs) → Queued h' (x ∷ xs') → Quiet i h l h'
  Quiet-same_front x xs xs' q q' c ne j = (same c ne j, λ e. q.0.0.0 ∙ sym q'.0.0.0 ∙ e)

pub Quiet-still : (i : ℕ) (h : Store) (l : List ℕ) → Quiet i h l h
Quiet-still i h l c ne j = (refl, λ e. e)

-- A place in a wait whose request has a status that `Fits`.
pub record Waiter (i : ℕ) (Fits : ℕ → Type 0) (w : Place) : Type 0 where
  pub no_owner : owns w ≡ 0
  pub no_sharer : shares w ≡ 0
  pub waiting : waits w ≡ 1
  pub stand :
      (st : ℕ → ℕ) (l : List ℕ) → Stands i w st l ↔ (In (request i) l × Fits (st (request i)))

abbrev pub Exclusively : ℕ → Type 0
Exclusively s = s ≡ 0

abbrev pub Shareably : ℕ → Type 0
Shareably s = (s ≡ 1) ⊎ (s ≡ 3)

pub lock-Waiter : (i : ℕ) → Waiter i Exclusively in_lock × Waiter i Exclusively in_lock_until
lock-Waiter i = (
  record { no_owner = refl; no_sharer = refl; waiting = refl; stand = λ st l. (λ s. s, λ s. s) },
  record { no_owner = refl; no_sharer = refl; waiting = refl; stand = λ st l. (λ s. s, λ s. s) },
)

pub shared-Waiter :
    (i : ℕ) → Waiter i Shareably in_lock_shared × Waiter i Shareably in_lock_shared_until
shared-Waiter i = (
  record { no_owner = refl; no_sharer = refl; waiting = refl; stand = λ st l. (λ s. s, λ s. s) },
  record { no_owner = refl; no_sharer = refl; waiting = refl; stand = λ st l. (λ s. s, λ s. s) },
)
