-- ===== src/Fair/RecursiveTimed/Turns.antt =====
-- include/fair_mutex.hpp: each turn of a thread at a `recursive_timed_mutex` is one at its `impl_`, or only
-- counts.
use yamc.Common.{
  ℕ, ◌+◌, ◌-◌, ◌<◌, ◌≡◌, ◌≢◌, refl, inl, inr, ap, Bool, true, false, arith, inc, dec, size_mod,
  ◌==◌, if◌then◌else◌, Bool-cases, ltb, ◌&&◌,
}
use yamc.Threads.{
  Action, call, wake, settle, Outcome, returned, waiting, aborted, notify_all, refused,
}
use yamc.Fair.WaitQueue.{Store}
use yamc.Fair.Recursive.{tid}
use yamc.Fair.Timed as Timed
use yamc.Fair.Timed.{
  impl_unlock, impl_lock, impl_lock_loop, impl_try_lock, impl_try_lockwait_timeout,
}
use yamc.Fair.Timed.Moves.{impl_unlock-cases}
use yamc.Fair.Counted.{Layer, Fits, TurnGood, recounts, passes, takes, leaves, below}
use yamc.Fair.RecursiveTimed.{
  Mutex, count_up, after_impl, lock, lock_wake, try_lock, unlock, try_lock_until,
  try_lock_until_timeout, Place, outside, in_lock, in_lock_until, holds, Method, locks, try_locks,
  unlocks, try_locks_until, taken, given, act,
}

abbrev pub depth : Place → ℕ
depth (holds c) = c
depth _ = 0

abbrev pub see : Place → Timed.Place
see outside = Timed.outside
see in_lock = Timed.in_lock
see in_lock_until = Timed.in_lock_until
see (holds c) = Timed.owner

abbrev pub layer : Layer Mutex Store Place Timed.Place (Action Timed.Method)
layer = record {
  own = λ m. m.owner;
  count = λ m. m.ncount;
  view = λ m. m.impl;
  depth = depth;
  see = see;
  owner = Timed.owner;
  under = Timed.act;
}

module _ (i : ℕ) (m : Mutex) where
  -- A section of `impl_`, for a thread that does not own the mutex.
  impl-TurnGood :
      (p w : Place) (b : Action Timed.Method) (o : Outcome Store Bool)
      → m.owner ≢ tid i
      → depth w ≡ 0
      → see w ≢ Timed.owner
      → Timed.act i b m.impl (see p) ≡ settle Timed.granted (see w) o
      → TurnGood layer i m p (settle (taken 0) w (after_impl i m o))
  impl-TurnGood p w b (returned h true n) out none apart e =
      (inl (refl, refl, omega arith, omega arith), takes (b, n, e) refl refl)
  impl-TurnGood p w b (returned h false n) out none apart e =
      (inr (out, refl, λ same. cc), passes (b, n, e) refl refl)
  impl-TurnGood p w b (waiting h n) out none apart e =
      (inr (out, none, apart), passes (b, n, e) refl refl)
  impl-TurnGood p w b aborted out none apart e = below b e

  not_mine : m.owner ≢ tid i → (m.owner == tid i) ≡ false
  not_mine out = ground arith

  -- A thread that owns it and takes it once more.
  again-TurnGood :
      (c : ℕ) (w : Place) (o : Outcome Mutex Bool)
      → Fits layer i (holds c) m
      → c + 1 < size_mod
      → TurnGood layer i m
          (holds c)
          (settle (taken c) w (if m.owner == tid i then count_up m else o))
  again-TurnGood c w o (inl (mine, counted, pos, _)) few =
      let own : (m.owner == tid i) ≡ true = ground arith in
      let positive : ltb 0 m.ncount ≡ true = ground arith in
      let more : inc size_mod m.ncount ≡ c + 1 = omega arith in
      rw (own, positive, more) (inl (mine, refl, omega arith, few), recounts mine mine refl refl)
  again-TurnGood c w o (inr (out, none, apart)) few = absurd (apart refl)

  count-TurnGood :
      (c : ℕ) (w : Place) (o : Outcome Mutex Bool)
      → Fits layer i (holds c) m
      → TurnGood layer i m (holds c) (
          if ltb (c + 1) size_mod
          then settle (taken c) w (if m.owner == tid i then count_up m else o)
          else refused)
  count-TurnGood c w o f = elim (Bool-cases (ltb (c + 1) size_mod)) [
    | inl e ↦ rw e (again-TurnGood c w o f (ground arith))
    | inr e ↦ rw e tt
  ]

  unlock-TurnGood :
      (c : ℕ)
      → Fits layer i (holds c) m
      → TurnGood layer i m (holds c) (settle (given c) outside (unlock i m))
  unfolding unlock Timed.act
  unlock-TurnGood c (inr (out, none, apart)) = absurd (apart refl)
  unlock-TurnGood c (inl (mine, counted, pos, few)) =
      let asserts : (ltb 0 m.ncount && m.owner == tid i) ≡ true = ground arith in
      let less : dec size_mod m.ncount ≡ c - 1 = omega arith in
      elim (Bool-cases (c == 1)) [
        | inl e ↦
            let last : (c - 1 == 0) ≡ true = ground arith in
            elim (impl_unlock-cases m.impl) [
              | inl fails ↦
                  rw (asserts, less, last, fails)
                    (below (call Timed.unlocks)
                      (ap (settle (λ _. Timed.outside) Timed.owner) fails))
              | inr done ↦
                  rw (asserts, less, last, done, e)
                    (
                      inr (omega arith, refl, λ same. cc),
                      leaves
                          (
                            call Timed.unlocks,
                            notify_all,
                            ap (settle (λ _. Timed.outside) Timed.owner) done,
                          )
                          mine refl (ground arith),
                    )
            ]
        | inr e ↦
            let more : (c - 1 == 0) ≡ false = ground arith in
            rw (asserts, less, more, e)
              (inl (mine, refl, ground arith, omega arith), recounts mine mine refl refl)
      ]

not_owner : (i : ℕ) (m : Mutex) (p : Place) → Fits layer i p m → depth p ≡ 0 → m.owner ≢ tid i
not_owner i m p (inl (mine, counted, pos, few)) none = absurd (omega arith)
not_owner i m p (inr (out, rest, apart)) none = out

-- A call by a thread that is in no wait and has not taken the mutex.
call-TurnGood :
    (i : ℕ) (a : Method) (m : Mutex)
    → m.owner ≢ tid i
    → TurnGood layer i m outside (act i (call a) m outside)
unfolding act lock try_lock try_lock_until Timed.act
call-TurnGood i locks m out = rw (not_mine i m out) (
    impl-TurnGood i m outside in_lock (call Timed.locks) (impl_lock i m.impl) out refl (λ e. cc)
      refl)
call-TurnGood i try_locks m out = rw (not_mine i m out) (
    impl-TurnGood i m outside outside (call Timed.try_locks) (impl_try_lock m.impl) out refl
      (λ e. cc) refl)
call-TurnGood i try_locks_until m out = rw (not_mine i m out) (
    impl-TurnGood i m outside in_lock_until (call Timed.try_locks_until) (impl_lock i m.impl) out
      refl (λ e. cc) refl)
call-TurnGood i unlocks m out = tt

pub act-TurnGood :
    (i : ℕ) (a : Action Method) (m : Mutex) (p : Place)
    → Fits layer i p m
    → TurnGood layer i m p (act i a m p)
unfolding act lock lock_wake try_lock try_lock_until try_lock_until_timeout Timed.act
act-TurnGood i (call locks) m outside f = call-TurnGood i locks m (not_owner i m outside f refl)
act-TurnGood i (call try_locks) m outside f =
    call-TurnGood i try_locks m (not_owner i m outside f refl)
act-TurnGood i (call try_locks_until) m outside f =
    call-TurnGood i try_locks_until m (not_owner i m outside f refl)
act-TurnGood i (call locks) m (holds c) f =
    count-TurnGood i m c in_lock (after_impl i m (impl_lock i m.impl)) f
act-TurnGood i (call try_locks) m (holds c) f =
    count-TurnGood i m c outside (after_impl i m (impl_try_lock m.impl)) f
act-TurnGood i (call try_locks_until) m (holds c) f =
    count-TurnGood i m c in_lock_until (after_impl i m (impl_lock i m.impl)) f
act-TurnGood i (call unlocks) m (holds c) f = unlock-TurnGood i m c f
act-TurnGood i (wake t) m in_lock f =
    impl-TurnGood i m in_lock in_lock (wake t) (impl_lock_loop i m.impl)
      (not_owner i m in_lock f refl) refl (λ e. cc) refl
act-TurnGood i (wake false) m in_lock_until f =
    impl-TurnGood i m in_lock_until in_lock_until (wake false) (impl_lock_loop i m.impl)
      (not_owner i m in_lock_until f refl) refl (λ e. cc) refl
act-TurnGood i (wake true) m in_lock_until f =
    impl-TurnGood i m in_lock_until in_lock_until (wake true) (impl_try_lockwait_timeout i m.impl)
      (not_owner i m in_lock_until f refl) refl (λ e. cc) refl
act-TurnGood i _ m p f = tt
