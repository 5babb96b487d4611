-- ===== src/Fair/Timed/Turns.antt =====
-- include/fair_mutex.hpp: every turn of a thread at a `timed_mutex` is a `Move` on the queue.
use yamc.Common.{
  ap, subst, Bool, ◌⊎◌, inr, inl, true, false, false, sym, true, ℕ, ◌≡◌, ◌≢◌, refl, List, [], ◌∷◌,
  ◌++◌, arith,
}
use yamc.Threads.{settle, call, wake, refused, moved, moved, Notice}
use yamc.Fair.WaitQueue.{Store, locked, request}
use yamc.Fair.WaitQueue.Chain.{Queued, Fresh, In}
use yamc.Fair.WaitQueue.Members.{In-split}
use yamc.Fair.WaitQueue.Remove.{wq_erase-Queued, wq_pop_front-Queued}
use yamc.Fair.Timed.{
  granted, locks, try_locks, try_locks_until, unlocks, wake, call, refused, Method, Action, Place,
  outside, in_lock, in_lock_until, owner, act,
}
use yamc.Fair.Timed.Moves.{
  Move, enters, queues, queues_until, finds_locked, takes, takes_until, waits, waits_until,
  gives_up, leaves, Placed, Line, lock_empty, try_lock_empty, enters-Queued, loop_takes,
  try_lock_full, loop_waits, timeout_erases, queues-Queued, unlock_front, lock_full,
}

-- A turn is refused, or it moves the thread and the list as `Move` says.
abbrev pub Turns : ℕ → Action Method → Store → List ℕ → Place → Type 0
Turns i a h l p =
    (act i a h p ≡ refused)
    ⊎ ((g : Store) × (l' : List ℕ) × (p' : Place) × (n : Notice) × (act i a h p ≡ moved g p' n)
        × Queued g l'
        × Move i l p l' p')

call_outside :
    (i : ℕ) (a : Action Method) (h : Store) (l : List ℕ)
    → Queued h l
    → Fresh (request i) l
    → Turns i a h l outside
unfolding act
call_outside i (call locks) h [] q f =
    inr (_, _, _, _, ap (settle granted in_lock) (lock_empty i h q), enters-Queued i h q, enters)
call_outside i (call locks) h (x ∷ xs) q f = inr (
  _,
  _,
  _,
  _,
  ap (settle granted in_lock) (lock_full i h x xs q f),
  queues-Queued i h x xs q f,
  queues x xs,
)
call_outside i (call try_locks) h [] q f =
    inr
      (_, _, _, _, ap (settle granted outside) (try_lock_empty i h q), enters-Queued i h q, enters)
call_outside i (call try_locks) h (x ∷ xs) q f =
    inr (_, _, _, _, ap (settle granted outside) (try_lock_full i h x xs q), q, finds_locked x xs)
call_outside i (call try_locks_until) h [] q f =
    inr (
      _,
      _,
      _,
      _,
      ap (settle granted in_lock_until) (lock_empty i h q),
      enters-Queued i h q,
      enters,
    )
call_outside i (call try_locks_until) h (x ∷ xs) q f = inr (
  _,
  _,
  _,
  _,
  ap (settle granted in_lock_until) (lock_full i h x xs q f),
  queues-Queued i h x xs q f,
  queues_until x xs,
)
call_outside i (call unlocks) h l q f = inl refl
call_outside i (wake t) h l q f = inl refl

test_decides : (a b : ℕ) → (a ≡ b) ⊎ (a ≢ b)
test_decides a b = ground arith

module _ (i : ℕ) (h : Store) (t : Bool) (xs : List ℕ) where
  front_takes :
      Queued h (request i ∷ xs)
      → Fresh locked xs
      → Turns i (wake t) h (request i ∷ xs) in_lock
        × Turns i (wake t) h (request i ∷ xs) in_lock_until
  unfolding act
  front_takes q f =
      let (loop, timeout, queued) = loop_takes i h xs q f in
      (
        inr (_, _, _, _, ap (settle granted in_lock) loop, queued, takes xs),
        elim t as (λ b. Turns i (wake b) h (request i ∷ xs) in_lock_until) [
          | true ↦
              inr (_, _, _, _, ap (settle granted in_lock_until) timeout, queued, takes_until xs)
          | false ↦ inr (_, _, _, _, ap (settle granted in_lock_until) loop, queued, takes_until xs)
        ],
      )

  behind_waits :
      (x : ℕ)
      → Queued h (x ∷ xs)
      → x ≢ request i
      → Turns i (wake t) h (x ∷ xs) in_lock × Turns i (wake false) h (x ∷ xs) in_lock_until
  unfolding act
  behind_waits x q ne = (
    inr (_, _, _, _, ap (settle granted in_lock) (loop_waits i h x xs q ne), q, waits x xs ne),
    inr (
      _,
      _,
      _,
      _,
      ap (settle granted in_lock_until) (loop_waits i h x xs q ne),
      q,
      waits_until x xs ne,
    ),
  )

behind_gives_up :
    (i : ℕ) (h : Store) (x : ℕ) (us ys : List ℕ)
    → Queued h ((x ∷ us) ++ request i ∷ ys)
    → x ≢ request i
    → Turns i (wake true) h ((x ∷ us) ++ request i ∷ ys) in_lock_until
unfolding act
behind_gives_up i h x us ys q ne = inr (
  _,
  _,
  _,
  _,
  ap (settle granted in_lock_until) (timeout_erases i h x (us ++ request i ∷ ys) q ne),
  wq_erase-Queued h (request i) (x ∷ us) ys q,
  gives_up x us ys,
)

behind_times_out :
    (i : ℕ) (h : Store) (x : ℕ) (xs : List ℕ)
    → Queued h (x ∷ xs)
    → In (request i) xs
    → x ≢ request i
    → Turns i (wake true) h (x ∷ xs) in_lock_until
behind_times_out i h x xs q j ne =
    let (us, ys, e) = In-split (request i) xs j in
    subst (λ l. Turns i (wake true) h (x ∷ l) in_lock_until) (sym e)
      (behind_gives_up i h x us ys (subst (λ l. Queued h (x ∷ l)) e q) ne)

wake_waiting :
    (i : ℕ) (t : Bool) (h : Store) (x : ℕ) (xs : List ℕ)
    → Queued h (x ∷ xs)
    → Fresh locked xs
    → In (request i) (x ∷ xs)
    → Turns i (wake t) h (x ∷ xs) in_lock × Turns i (wake t) h (x ∷ xs) in_lock_until
wake_waiting i t h x xs q f j = elim (test_decides x (request i)) [
  | inl e ↦
      subst (λ y. Turns i (wake t) h (y ∷ xs) in_lock × Turns i (wake t) h (y ∷ xs) in_lock_until)
        (sym e) (front_takes i h t xs (subst (λ y. Queued h (y ∷ xs)) e q) f)
  | inr ne ↦ (
    (behind_waits i h t xs x q ne).0,
    elim t as (λ b. Turns i (wake b) h (x ∷ xs) in_lock_until) [
      | true ↦ behind_times_out i h x xs q (elim j [ inl e ↦ absurd (ne (sym e)) | inr k ↦ k ]) ne
      | false ↦ (behind_waits i h false xs x q ne).1
    ],
  )
]

owner_leaves :
    (i : ℕ) (h : Store) (xs : List ℕ)
    → Queued h (locked ∷ xs)
    → Turns i (call unlocks) h (locked ∷ xs) owner
unfolding act
owner_leaves i h xs q = inr (
  _,
  _,
  _,
  _,
  ap (settle (λ _. outside) owner) (unlock_front i h xs q),
  wq_pop_front-Queued h locked xs q,
  leaves xs,
)

-- On a store in which the queue is a ring of nodes `l`, with `locked_` nowhere but at its front, and
-- for a thread that stands where `l` says, any turn of `timed_mutex` is either a call that the caller
-- may not make or passes its assertions and leaves a store in which the queue is a ring again, changed
-- as `Move` says: an outside thread enters an empty queue or goes to its back, the front one takes the
-- lock in its place, one that times out leaves the others in their order, and an unlock takes the front
-- away.
pub timed-Moves :
    (i : ℕ) (a : Action Method) (h : Store) (l : List ℕ) (p : Place)
    → Queued h l
    → Line l
    → Placed i p l
    → Turns i a h l p
unfolding act
timed-Moves i a h l outside q f j = call_outside i a h l q j
timed-Moves i (call locks) h l in_lock q f j = inl refl
timed-Moves i (call locks) h l in_lock_until q f j = inl refl
timed-Moves i (call try_locks) h l in_lock q f j = inl refl
timed-Moves i (call try_locks) h l in_lock_until q f j = inl refl
timed-Moves i (call try_locks_until) h l in_lock q f j = inl refl
timed-Moves i (call try_locks_until) h l in_lock_until q f j = inl refl
timed-Moves i (call unlocks) h l in_lock q f j = inl refl
timed-Moves i (call unlocks) h l in_lock_until q f j = inl refl
timed-Moves i (wake t) h [] in_lock q f j = absurd j
timed-Moves i (wake t) h [] in_lock_until q f j = absurd j
timed-Moves i (wake t) h (x ∷ xs) in_lock q f j = (wake_waiting i t h x xs q f j).0
timed-Moves i (wake t) h (x ∷ xs) in_lock_until q f j = (wake_waiting i t h x xs q f j).1
timed-Moves i (call unlocks) h l owner q f (xs, e) =
    subst (λ l. Turns i (call unlocks) h l owner) (sym e)
      (owner_leaves i h xs (subst (Queued h) e q))
timed-Moves i (call locks) h l owner q f j = inl refl
timed-Moves i (call try_locks) h l owner q f j = inl refl
timed-Moves i (call try_locks_until) h l owner q f j = inl refl
timed-Moves i (wake t) h l owner q f j = inl refl
