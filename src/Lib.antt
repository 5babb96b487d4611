-- ===== src/Lib.antt =====
-- yamc: mutexes, readers-writer locks and other synchronisation primitives in C++, header files under
-- include/. This library models the classes that synchronise by a std::mutex mtx_ and a
-- std::condition_variable cv_, and proves what they promise.
--
-- Threads.antt says how such a class is modelled. A method holds mtx_ from entry to return, except while
-- it waits on cv_, so it is a row of sections that run without interruption. A section is a function from
-- the object's members to an Outcome: the method returned, it waits, or an assertion failed. What it does
-- to cv_ is part of the outcome (Notice). A table lists where each thread stands; Step lets any thread
-- take its turn, and Reach is any interleaving of such turns. A thread that waits may wake at any time,
-- notified or not, and a wait with a deadline may end by a timeout at any time, so that what is proved of
-- every interleaving does not rest on the scheduler, on the clock or on the notifications. Whether a
-- notification is sent when it is needed is stated apart. The memory model does not enter: every access
-- is made under mtx_. The spin mutexes have neither, and are modelled by their atomic accesses.
--
-- Common.antt and its children: lists over the native numbers, Boolean tests, machine words. A size_t is a
-- number below 2 ^ 64 and wraps round there.
--
-- RwLock: include/yamc_rwlock_sched.hpp. Policy is the template parameter RwLockPolicy, and Lawful its
-- contract, in terms of the numbers of waiting writers, writers and readers that a state stands for.
-- ReaderPrefer and WriterPrefer fill it. An assertion is a test whose failure gives none.
--
-- AlternateShared: include/alternate_shared_mutex.hpp over any policy. lock, try_lock and so on are the
-- sections from the entry of the member of that name; lock_loop and lock_shared_loop start at the head of
-- its loop, and run again at each wake-up; do_try_lockwait_timeout and do_try_lock_sharedwait_timeout run
-- after a timeout. The Boolean result of a void method is true. act joins the members to the turns of a
-- thread and refuses the calls that a caller may not make.
--
-- Alternate: include/alternate_mutex.hpp. Timed and RecursiveTimed have the members of timed_mutex and
-- recursive_timed_mutex as sections; a thread that holds a recursive mutex stands at holds c when it has
-- taken it c times. Recursive has recursive_mutex, whose owner_ is read by threads that do not hold mtx_:
-- there each access to owner_, ncount_ or mtx_ is a turn. Threads.Places has the invariants of both kinds.
--
-- Fair.Ticket: yamc::fair::mutex of include/fair_mutex.hpp. Line has the queue of threads that a state
-- stands for, Order the refinement, Safety its consequences.
--
-- Fair.Recursive: yamc::fair::recursive_mutex of that file. Nesting has what a thread that owns it does,
-- Places where its threads stand: at holds c when a thread has taken it c times more than it has unlocked
-- it. Fair.RecursiveTimed: recursive_timed_mutex, whose impl_ is the store of Fair.Timed; after_impl is the
-- rest of a member once a section of impl_ has ended. Counted has the owner and the count over a mutex that
-- is not recursive, for both; Turns compares each turn with one of that mutex, Exclusion has what follows.
--
-- Fair.WaitQueue: the intrusive wait queue of timed_mutex_impl in include/fair_mutex.hpp and of
-- shared_mutex_base in include/fair_shared_mutex.hpp, on a store of nodes; Chain says when the store holds
-- a list of nodes, Push and Remove that the operations are those of a list.
--
-- Fair.Timed: timed_mutex_impl and timed_mutex of include/fair_mutex.hpp on that store; impl_lock_loop
-- starts at the head of the loop of impl_lock and of impl_try_lockwait, impl_try_lockwait_timeout runs
-- after a timeout. Moves has the same turns on a list of nodes, Turns the refinement, Lines what a move
-- does to the list, Safety its consequences.
--
-- Fair.Shared: shared_mutex_base of include/fair_shared_mutex.hpp on that store. The status of a node keeps
-- its bits: 1 for shared, 2 for lockable, and in locked_ a count in steps of 4. impl_lock_loop and
-- impl_lock_shared_loop start at the head of the loop of the member of that name, impl_try_lockwait_timeout
-- and impl_try_lockwait_shared_timeout run after a timeout. The loops over the nodes run on fuel, which
-- exceeds their number. Phase says what the loop of PhaseFairness does, Group what that of TaskFairness
-- does, Unlock and Timeout what the members do. Places joins the members to the turns of a thread. Line
-- says which lists of waiting nodes the queue may hold: lockable shared ones in front, then an exclusive
-- one and any others. Turns says what a turn keeps, Opened, Hold, Joins, Exclusive, Release, GivingUp,
-- Lockable, Sharing, SharedWaits, Leaving and Acts that each does, Standing and Runs the invariant,
-- Exclusion, Progress and Wakeups what follows. The threads are fewer than 2 ^ 62, so that the count in the
-- status of locked_ does not wrap.
--
-- Semaphore, Latch, Barrier: include/yamc_semaphore.hpp, include/yamc_latch.hpp, include/yamc_barrier.hpp.
-- The places of the threads at a semaphore or a latch count what each thread has acquired, released or
-- counted down; the members of a barrier are modelled without places. A ptrdiff_t is a natural number
-- there, since the assertions of these classes keep it from being negative. The completion function of a
-- barrier is a parameter, a function on a state of its own.
--
-- Spin: include/naive_spin_mutex.hpp, include/ttas_spin_mutex.hpp, include/yamc_backoff_spin.hpp. A step is
-- one access to the atomic integer; a compare_exchange_weak may fail spuriously. spin and spin_weak differ
-- in the memory order alone and share naive_act. Backoff has the policies.
--
-- Validator: validator::deadlock and validator::null of include/yamc_lock_validator.hpp. Validator is the
-- interface that a mutex calls; WaitsFor says who blocks whom in a table, Search what find_closepath finds,
-- Fuel that more fuel changes no answer, Changes and Cycles what the members do to the chains of waits,
-- Waiters where one thread waits, Stale what a reported deadlock leaves behind. find_closepath runs on fuel
-- for its depth; Search proves that enough fuel exists wherever no thread waits, through others, for itself.
--
-- Checked: mutex_base, mutex and timed_mutex of include/checked_mutex.hpp, over any validator, with
-- YAMC_CHECKED_CALL_ABORT 0. lock_loop and try_lock_loop start at the head of the loop of lock and of
-- do_try_lockwait. After a wake-up lock uses the table twice, in dequeue and in enqueue or locked: lock_wake
-- is the first, and lock_loop, at the place woken, the second, a turn of its own, so that threads at other
-- mutexes may act between them. Misuse throws, so that any thread may make any call, also after an
-- exception. Table and Sections have what a turn does to the validator's table, Deadlocks that a wait in a
-- circle is reported.
--
-- Checked.Recursive: recursive_mutex_base, recursive_mutex and recursive_timed_mutex of the same file;
-- Agreement compares their sections with those of Alternate.RecursiveTimed. Checked.Shared:
-- include/checked_shared_mutex.hpp, over any policy and any validator. A section runs on the members of one
-- mutex and on the table; Places joins the members to the turns, Members, Ends, Sections, Turns and Acts say
-- what they keep, Exclusion and Closed what holds in every state, Starvation what a reported lock leaves. A
-- wake-up is two turns there too. leaks of Exclusion counts the calls of lock that have thrown deadlock,
-- which the policy keeps counting as waiting writers.
--
-- SharedLock: include/yamc_shared_lock.hpp. Each member is a step on the lock object and on how often each
-- mutex is held shared; the mutex may throw. Store has the objects of a program and its commands, Balance and
-- Commands the count of the holds.
--
-- ScopedLock: include/yamc_scoped_lock.hpp. std::lock and the mutexes are an interface, Mutexes, with the
-- documented behaviour, Lawful. Scopes has programs of nested scopes, exceptions included.
--
-- Win: win::native_mutex of include/win_native_mutex.hpp and win::counting_semaphore of
-- include/win_semaphore.hpp. Posix: posix::native_mutex of include/posix_native_mutex.hpp and
-- posix::counting_semaphore of include/posix_semaphore.hpp. Gcd: gcd::counting_semaphore of
-- include/gcd_semaphore.hpp. Win32, Pthread, Sem and Dispatch are the interfaces of the operating systems, and
-- Counts their documented behaviour; Errors says how a member ends. Timeout and Deadline say how long a wait
-- with a timeout is, Permits how many permits there are. The clocks' times are arguments.
--
-- Not modelled: the other wrappers of operating system primitives (posix::spinlock, apple::unfair_lock,
-- critical_section and slim_rwlock) only call them; posix::native_recursive_mutex and each way to lock a
-- posix::rwlock have the members of posix::native_mutex on other calls. The debug output and the tests.
pub mod Common
pub mod Threads
pub mod RwLock
pub mod Alternate
pub mod AlternateShared
pub mod Fair
pub mod Checked
pub mod SharedLock
pub mod ScopedLock
pub mod Validator
pub mod Spin
pub mod Errors
pub mod Posix
pub mod Gcd
pub mod Win
pub mod Semaphore
pub mod Latch
pub mod Barrier
