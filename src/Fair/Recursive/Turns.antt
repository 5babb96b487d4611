-- ===== src/Fair/Recursive/Turns.antt =====
-- include/fair_mutex.hpp: each turn of a thread at a `recursive_mutex` is one at a `mutex` with the same
-- tickets, or only counts.
use yamc.Common.{
  ℕ, ◌+◌, ◌-◌, ◌<◌, ◌≡◌, ◌≢◌, refl, inl, inr, Bool, true, false, arith, inc, dec, size_mod, ◌==◌,
  if◌then◌else◌, Bool-cases, ltb, ◌&&◌,
}
use yamc.Threads.{Action, call, wake, settle, Outcome, moved, notify_all, silent, refused}
use yamc.Fair.Recursive.{Mutex, tid, no_thread, count_up, take, lock, lock_loop, try_lock, unlock}
use yamc.Fair.Recursive.Places.{
  Place, outside, in_lock, holds, Method, locks, try_locks, unlocks, taken, given, act,
}
use yamc.Fair.Ticket as Ticket
use yamc.Fair.Counted.{Layer, Fits, TurnGood, recounts, passes, takes, leaves, barred}

abbrev pub depth : Place → ℕ
depth (holds c) = c
depth _ = 0

abbrev pub see : Place → Ticket.Place
see outside = Ticket.outside
see (in_lock request) = Ticket.in_lock request
see (holds c) = Ticket.owner

abbrev pub view : Mutex → Ticket.Mutex
view m = record { next = m.next; curr = m.curr }

abbrev pub layer : Layer Mutex Ticket.Mutex Place Ticket.Place (Action Ticket.Method)
layer = record {
  own = λ m. m.owner;
  count = λ m. m.ncount;
  view = view;
  depth = depth;
  see = see;
  owner = Ticket.owner;
  under = Ticket.act;
}

module _ (i : ℕ) (m : Mutex) where
  -- A thread that does not own the mutex takes it, with the tickets as they are then.
  take-TurnGood :
      (p w : Place) (b : Action Ticket.Method) (next : ℕ)
      → m.owner ≢ tid i
      → Ticket.act i b (view m) (see p)
        ≡ moved (record { next = next; curr = m.curr }) Ticket.owner silent
      → TurnGood layer i m p (settle (taken 0) w (take i (record m { next = next })))
  take-TurnGood p w b next out e = elim (Bool-cases (m.ncount == 0 && m.owner == no_thread)) [
    | inl free ↦
        rw free (inl (refl, refl, omega arith, omega arith), takes (b, silent, e) refl refl)
    | inr taken_already ↦ rw taken_already (barred b _ silent e out (ground arith))
  ]

  not_mine : m.owner ≢ tid i → (m.owner == tid i) ≡ false
  not_mine out = ground arith

  lock-TurnGood :
      m.owner ≢ tid i → TurnGood layer i m outside (settle (taken 0) (in_lock m.next) (lock i m))
  unfolding lock lock_loop Ticket.act Ticket.lock Ticket.lock_loop
  lock-TurnGood out = rw (not_mine out) (elim (Bool-cases (m.next == m.curr)) [
    | inl served ↦ rw served (
        take-TurnGood outside (in_lock m.next) (call Ticket.locks) (inc size_mod m.next) out
          (rw served refl))
    | inr behind ↦
        rw behind
          (inr (out, refl, λ e. cc), passes (call Ticket.locks, silent, rw behind refl) refl refl)
  ])

  wake-TurnGood :
      (t : Bool) (request : ℕ)
      → m.owner ≢ tid i
      → TurnGood layer i m
          (in_lock request)
          (settle (taken 0) (in_lock request) (lock_loop i request m))
  unfolding lock_loop Ticket.act Ticket.lock_loop
  wake-TurnGood t request out = elim (Bool-cases (request == m.curr)) [
    | inl served ↦
        rw served
          (take-TurnGood (in_lock request) (in_lock request) (wake t) m.next out (rw served refl))
    | inr behind ↦
        rw behind (inr (out, refl, λ e. cc), passes (wake t, silent, rw behind refl) refl refl)
  ]

  try_lock-TurnGood :
      m.owner ≢ tid i → TurnGood layer i m outside (settle (taken 0) outside (try_lock i m))
  unfolding try_lock Ticket.act Ticket.try_lock
  try_lock-TurnGood out = rw (not_mine out) (elim (Bool-cases (m.next == m.curr)) [
    | inl served ↦ rw served (
        take-TurnGood outside outside (call Ticket.try_locks) (inc size_mod m.next) out
          (rw served refl))
    | inr behind ↦
        rw behind (
          inr (out, refl, λ e. cc),
          passes (call Ticket.try_locks, silent, rw behind refl) refl refl,
        )
  ])

  -- A thread that owns it and takes it once more.
  again-TurnGood :
      (c : ℕ) (w : Place) (o : Outcome Mutex Bool)
      → Fits layer i (holds c) m
      → c + 1 < size_mod
      → TurnGood layer i m
          (holds c)
          (settle (taken c) w (if m.owner == tid i then count_up m else o))
  again-TurnGood c w o (inl (mine, counted, pos, _)) few =
      let own : (m.owner == tid i) ≡ true = ground arith in
      let positive : ltb 0 m.ncount ≡ true = ground arith in
      let more : inc size_mod m.ncount ≡ c + 1 = omega arith in
      rw (own, positive, more) (inl (mine, refl, omega arith, few), recounts mine mine refl refl)
  again-TurnGood c w o (inr (out, none, apart)) few = absurd (apart refl)

  count-TurnGood :
      (c : ℕ) (w : Place) (o : Outcome Mutex Bool)
      → Fits layer i (holds c) m
      → TurnGood layer i m (holds c) (
          if ltb (c + 1) size_mod
          then settle (taken c) w (if m.owner == tid i then count_up m else o)
          else refused)
  count-TurnGood c w o f = elim (Bool-cases (ltb (c + 1) size_mod)) [
    | inl e ↦ rw e (again-TurnGood c w o f (ground arith))
    | inr e ↦ rw e tt
  ]

  unlock-TurnGood :
      (c : ℕ)
      → Fits layer i (holds c) m
      → TurnGood layer i m (holds c) (settle (given c) outside (unlock i m))
  unfolding unlock Ticket.act Ticket.unlock
  unlock-TurnGood c (inr (out, none, apart)) = absurd (apart refl)
  unlock-TurnGood c (inl (mine, counted, pos, few)) =
      let asserts : (ltb 0 m.ncount && m.owner == tid i) ≡ true = ground arith in
      let less : dec size_mod m.ncount ≡ c - 1 = omega arith in
      elim (Bool-cases (c == 1)) [
        | inl e ↦
            let last : (c - 1 == 0) ≡ true = ground arith in
            rw (asserts, less, last, e)
              (
                inr (omega arith, refl, λ same. cc),
                leaves (call Ticket.unlocks, notify_all, refl) mine refl (ground arith),
              )
        | inr e ↦
            let more : (c - 1 == 0) ≡ false = ground arith in
            rw (asserts, less, more, e)
              (inl (mine, refl, ground arith, omega arith), recounts mine mine refl refl)
      ]

not_owner : (i : ℕ) (m : Mutex) (p : Place) → Fits layer i p m → depth p ≡ 0 → m.owner ≢ tid i
not_owner i m p (inl (mine, counted, pos, few)) none = absurd (omega arith)
not_owner i m p (inr (out, rest, apart)) none = out

pub act-TurnGood :
    (i : ℕ) (a : Action Method) (m : Mutex) (p : Place)
    → Fits layer i p m
    → TurnGood layer i m p (act i a m p)
unfolding act lock try_lock
act-TurnGood i (call locks) m outside f = lock-TurnGood i m (not_owner i m outside f refl)
act-TurnGood i (call try_locks) m outside f = try_lock-TurnGood i m (not_owner i m outside f refl)
act-TurnGood i (call locks) m (holds c) f = count-TurnGood i m c (in_lock m.next) _ f
act-TurnGood i (call try_locks) m (holds c) f = count-TurnGood i m c outside _ f
act-TurnGood i (call unlocks) m (holds c) f = unlock-TurnGood i m c f
act-TurnGood i (wake t) m (in_lock request) f =
    wake-TurnGood i m t request (not_owner i m (in_lock request) f refl)
act-TurnGood i _ m p f = tt
