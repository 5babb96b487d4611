-- ===== src/Posix/Examples.antt =====
-- include/posix_native_mutex.hpp and include/posix_semaphore.hpp: the theorems over a semaphore that is its
-- number of permits, at most three, and a mutex that stays owned.
use yamc.Common.{ℕ, zero, suc, ◌+◌, ◌*◌, ◌/◌, ◌<◌, ◌≡◌, refl, ltb, if◌then◌else◌, ℤ, pos, negsuc}
use yamc.Posix.{Code, success, failure, einval, etimedout, eoverflow, other, Timespec}
use yamc.Posix.Mutex.{Pthread, tested, try_lock_for}
use yamc.Posix.Semaphore.{Sem, timed, try_acquire_for, try_acquire_until_of}
use yamc.Posix.Deadline.{timespec, deadline_is_exact}

abbrev seconds : ℤ → ℤ
seconds (pos t) = pos (t / 1000000000)
seconds (negsuc t) = negsuc (t / 1000000000)

abbrev expired : ℤ → Code
expired (pos n) = failure etimedout
expired (negsuc n) = failure einval

abbrev waited : Timespec → ℕ → Code × ℕ
waited ts zero = (expired ts.tv_nsec, 0)
waited ts (suc n) = (success, n)

abbrev tried : ℕ → Code × ℕ
tried zero = (failure other, 0)
tried (suc n) = (success, n)

abbrev counter : Sem ℕ
counter = record {
  to_time_t = seconds;
  sem_init = λ n. n;
  sem_post = λ s. (if ltb s 3 then success else failure eoverflow, if ltb s 3 then s + 1 else s);
  sem_wait = tried;
  sem_trywait = tried;
  sem_timedwait = waited;
}

abbrev owned : Pthread ℕ
owned = record {
  to_time_t = seconds;
  do_lock = λ s. (failure other, s);
  do_trylock = λ s. (failure other, s);
  do_timedlock = λ ts s. (failure etimedout, s);
  do_unlock = λ s. (success, s);
}

-- One and a half seconds after two seconds.
deadline_is_exact_example :
    (sec nsec : ℕ) × (sec * 1000000000 + nsec ≡ 2000000000 + 1500000000)
    × (nsec < 1000000000)
    × (try_lock_for owned (pos 1500000000) 2000000000 0
        ≡ tested owned (owned.do_timedlock (timespec sec nsec) 0))
    × (try_acquire_for counter (pos 1500000000) 2000000000 0 ≡ (
      timed (counter.sem_timedwait (timespec sec nsec) 0).0,
      (counter.sem_timedwait (timespec sec nsec) 0).1,
    ))
    × (try_acquire_until_of counter (77 + 1500000000) 2000000000 77 0 ≡ (
      timed (counter.sem_timedwait (timespec sec nsec) 0).0,
      (counter.sem_timedwait (timespec sec nsec) 0).1,
    ))
deadline_is_exact_example =
    deadline_is_exact owned counter 1500000000 2000000000 77 0 (λ t. refl) (λ t. refl)
