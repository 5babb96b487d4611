-- ===== src/Posix/Deadline.antt =====
-- include/posix_native_mutex.hpp and include/posix_semaphore.hpp: the deadlines that the calls are given.
use yamc.Common.{
  ℕ, ◌+◌, ◌-◌, ◌*◌, ◌/◌, ◌%◌, ◌<◌, ◌≡◌, ◌≢◌, refl, ap, ◌∙◌, true, false, leb, ℤ, pos, negsuc, minus,
  plus, rem, arith,
}
use yamc.Errors.{Answer, thrown}
use yamc.Posix.{Errno, einval, failure, Timespec, abs_timeout}
use yamc.Posix.Mutex.{Pthread, tested, do_try_lockwait, try_lock_for}
use yamc.Posix.Semaphore.{
  Sem, timed, do_try_acquirewait, try_acquire_for, try_acquire_until, try_acquire_until_of,
}

-- `system_clock::to_time_t` gives whole seconds, and leaves the rest out.
abbrev pub Truncates : (ℤ → ℤ) → Type 0
Truncates to_time_t = (t : ℕ) → to_time_t (pos t) ≡ pos (t / 1000000000)

abbrev pub timespec : ℕ → ℕ → Timespec
timespec sec nsec = record { tv_sec = pos sec; tv_nsec = pos nsec }

abs_timeout_lem :
    (f : ℤ → ℤ) (t : ℕ)
    → Truncates f
    → abs_timeout f (pos t) ≡ timespec (t / 1000000000) (t % 1000000000)
abs_timeout_lem f t cuts = ap (λ z. record { tv_sec = z; tv_nsec = pos (t % 1000000000) }) (cuts t)

minus-pos : (a b : ℕ) → minus (a + b) a ≡ pos b
minus-pos a b = let above : leb a (a + b) ≡ true = ground arith in rw above (ap pos (omega arith))

-- Where `to_time_t` truncates, for a time `r` of nanoseconds from now on: the `timespec` that a call is given
-- is valid and is exactly that deadline, in `try_lock_for` of the mutexes, in `try_acquire_for`, and in
-- `try_acquire_until` with a point in time of another clock.
pub deadline_is_exact :
    {S : Type 0} (P : Pthread S) (Q : Sem S) (r sys_now now : ℕ) (s : S)
    → Truncates P.to_time_t
    → Truncates Q.to_time_t
    → (sec nsec : ℕ) × (sec * 1000000000 + nsec ≡ sys_now + r)
      × (nsec < 1000000000)
      × (try_lock_for P (pos r) sys_now s ≡ tested P (P.do_timedlock (timespec sec nsec) s))
      × (try_acquire_for Q (pos r) sys_now s ≡ (
        timed (Q.sem_timedwait (timespec sec nsec) s).0,
        (Q.sem_timedwait (timespec sec nsec) s).1,
      ))
      × (try_acquire_until_of Q (now + r) sys_now now s ≡ (
        timed (Q.sem_timedwait (timespec sec nsec) s).0,
        (Q.sem_timedwait (timespec sec nsec) s).1,
      ))
unfolding try_lock_for try_acquire_for try_acquire_until_of do_try_lockwait do_try_acquirewait
deadline_is_exact {S} P Q r sys_now now s cuts_p cuts_q =
    let t = r + sys_now in
    let waits : Timespec → Answer Errno × S =
      λ x. (timed (Q.sem_timedwait x s).0, (Q.sem_timedwait x s).1) in
    let same = ap waits (abs_timeout_lem Q.to_time_t t cuts_q) in
    (
      t / 1000000000,
      t % 1000000000,
      omega arith,
      omega arith,
      ap (λ x. tested P (P.do_timedlock x s)) (abs_timeout_lem P.to_time_t t cuts_p),
      same,
      ap (λ z. waits (abs_timeout Q.to_time_t (plus z sys_now))) (minus-pos now r) ∙ same,
    )

-- What POSIX says of a call that would wait: it fails with `EINVAL` for a negative `tv_nsec`.
abbrev RefusesNegative : {S : Type 0} → Sem S → (S → ℕ) → Type 0
RefusesNegative {S} P value =
    (s : S) (ts : Timespec) (n : ℕ)
    → value s ≡ 0
    → ts.tv_nsec ≡ negsuc n
    → (P.sem_timedwait ts s).0 ≡ failure einval

rem-negsuc : (t : ℕ) → (t + 1) % 1000000000 ≢ 0 → (n : ℕ) × (rem (negsuc t) 1000000000 ≡ negsuc n)
rem-negsuc t ne =
    let below : leb ((t + 1) % 1000000000) 0 ≡ false = ground (arith, ne) in
    ((t + 1) % 1000000000 - 0 - 1, rw below refl)

-- A point in time before the epoch, no whole number of seconds, of a semaphore without permits:
-- `try_acquire_until` throws, whatever `to_time_t` does.
before_epoch_throws :
    {S : Type 0} (Q : Sem S) (value : S → ℕ) (t : ℕ) (s : S)
    → RefusesNegative Q value
    → value s ≡ 0
    → (t + 1) % 1000000000 ≢ 0
    → (try_acquire_until Q (negsuc t) s).0 ≡ thrown einval
unfolding try_acquire_until do_try_acquirewait
before_epoch_throws Q value t s refuses none ne =
    let (n, e) = rem-negsuc t ne in
    ap timed (refuses s (abs_timeout Q.to_time_t (negsuc t)) n none e)
