-- ===== src/SharedLock.antt =====
-- include/yamc_shared_lock.hpp: `yamc::shared_lock`, for any `Mutex`. A member is a step on the lock
-- object and on `held`, how often each mutex is held shared: what the calls of `lock_shared`,
-- `try_lock_shared` and `unlock_shared` add up to. What a call on the mutex answers, or that it throws, is
-- an argument.
pub mod Store
pub mod Balance
pub mod Commands
pub mod Examples
use yamc.Common.{
  ℕ, ◌+◌, ◌-◌, Bool, true, false, Option, some, none, List, if◌then◌else◌, ◌==◌, get_elem?, set,
}
use yamc.Fair.WaitQueue.{update}

-- `pm_`, by the mutex's number, `none` for `nullptr`, and `owns_`.
pub record SharedLock : Type 0 where
  pub pm : Option ℕ
  pub owns : Bool

-- The code of a `std::system_error`, or an exception that a member of the mutex throws.
pub data Error : Type 0 where
  operation_not_permitted resource_deadlock_would_occur from_mutex : Error

-- What a call of a try on the mutex does: it answers, or throws.
pub data Try : Type 0 where
  answers : (b : Bool) → Try
  throws : Try

-- How a member ends: it returns, `true` if it returns nothing, or throws.
pub data Answer : Type 0 where
  done : Bool → Answer
  thrown : Error → Answer

pub record Outcome : Type 0 where
  pub held : ℕ → ℕ
  pub lock : SharedLock
  pub answer : Answer

-- `shared_lock() = default`.
abbrev pub blank : SharedLock
blank = record { pm = none; owns = false }

-- A call of `lock_shared`, or of a try that answers `b`.
abbrev pub acquire : ℕ → Bool → (ℕ → ℕ) → ℕ → ℕ
acquire k b h = if b then update h k (h k + 1) else h

-- A call of `unlock_shared`: `none` if the mutex is not held.
abbrev pub give_back : ℕ → (ℕ → ℕ) → Option (ℕ → ℕ)
give_back k h = if h k == 0 then none else some (update h k (h k - 1))

pub locking_precondition : SharedLock → Option Error
locking_precondition l = elim l.pm [
  | none ↦ some operation_not_permitted
  | some k ↦ if l.owns then some resource_deadlock_would_occur else none
]

-- The constructors from a mutex `k`: with nothing more, with `std::defer_lock`, with
-- `std::try_to_lock` or a time, and with `std::adopt_lock`.
pub locked : ℕ → (ℕ → ℕ) → Outcome
locked k h = record {
  held = acquire k true h;
  lock = record { pm = some k; owns = true };
  answer = done true;
}

pub deferred : ℕ → (ℕ → ℕ) → Outcome
deferred k h = record { held = h; lock = record { pm = some k; owns = false }; answer = done true }

pub tried : ℕ → Bool → (ℕ → ℕ) → Outcome
tried k b h = record {
  held = acquire k b h;
  lock = record { pm = some k; owns = b };
  answer = done true;
}

pub adopted : ℕ → (ℕ → ℕ) → Outcome
adopted k h = record { held = h; lock = record { pm = some k; owns = true }; answer = done true }

-- `pm_->unlock_shared()`: `none` if `pm_` is null or the mutex is not held.
abbrev pub unlock_shared : SharedLock → (ℕ → ℕ) → Option (ℕ → ℕ)
unlock_shared l h = elim l.pm [ none ↦ none | some k ↦ give_back k h ]

-- The destructor's calls.
pub destroy : SharedLock → (ℕ → ℕ) → Option (ℕ → ℕ)
destroy l h = if l.owns then unlock_shared l h else some h

-- What the move members call before they take the members over.
pub before_move : SharedLock → (ℕ → ℕ) → Option (ℕ → ℕ)
before_move l h = elim l.pm [ none ↦ some h | some k ↦ if l.owns then give_back k h else some h ]

-- A call on the mutex after `locking_precondition`; `lock` is told whether `lock_shared` throws. Where the
-- mutex throws, it is not held once more, and `owns_` is not assigned. A constructor whose call on the mutex
-- throws makes no object and changes nothing else, so it is no step.
pub try_lock : Try → SharedLock → (ℕ → ℕ) → Option Outcome
unfolding locking_precondition
try_lock c l h = elim (locking_precondition l) [
  | some e ↦ some (record { held = h; lock = l; answer = thrown e })
  | none ↦ elim l.pm [
    | none ↦ none
    | some k ↦ elim c [
      | answers b ↦
          some (record { held = acquire k b h; lock = record l { owns = b }; answer = done b })
      | throws ↦ some (record { held = h; lock = l; answer = thrown from_mutex })
    ]
  ]
]

pub lock : Bool → SharedLock → (ℕ → ℕ) → Option Outcome
unfolding locking_precondition
lock fails l h = elim (locking_precondition l) [
  | some e ↦ some (record { held = h; lock = l; answer = thrown e })
  | none ↦ elim l.pm [
    | none ↦ none
    | some k ↦
        if fails
        then some (record { held = h; lock = l; answer = thrown from_mutex })
        else some (record {
          held = acquire k true h;
          lock = record l { owns = true };
          answer = done true;
        })
  ]
]

-- `none` where the assertion fails or the mutex is not held.
pub unlock : SharedLock → (ℕ → ℕ) → Option Outcome
unlock l h = elim l.pm [
  | none ↦ none
  | some k ↦
      if l.owns
      then elim (give_back k h) [
        | none ↦ none
        | some t ↦ some (record { held = t; lock = record l { owns = false }; answer = done true })
      ]
      else some (record { held = h; lock = l; answer = thrown operation_not_permitted })
]

-- `std::swap` of both members.
pub swap : SharedLock → SharedLock → SharedLock × SharedLock
swap l r = (r, l)

-- The lock that is left, and the mutex that is handed out.
pub release : SharedLock → SharedLock × Option ℕ
release l = (record { pm = none; owns = false }, l.pm)

pub owns_lock : SharedLock → Bool
owns_lock l = l.owns
