-- ===== src/Fair/Ticket/Order.antt =====
-- include/fair_mutex.hpp: every turn of `yamc::fair::mutex` is a step of the queue.
use yamc.Common.{
  ◌==◌, Bool-cases, set-get_elem?, ℕ, ◌≡◌, refl, subst, inl, inr, true, List, [], ◌∷◌, ◌++◌, some,
  get_elem?, set, length, arith,
}
use yamc.Threads.{refused, failed, Turn, moved, Action, call, wake, System, Step, turn}
use yamc.Fair.Ticket.{
  granted, settle, lock_loop, try_lock, unlock, lock, Mutex, Place, outside, in_lock, owner, Method,
  locks, try_locks, unlocks, act,
}
use yamc.Fair.Ticket.Line.{
  owner_front, Stands-leave, Stands-join, leave, join, Stands-enter, entered, short, joined, left,
  stay, Stands, Serve,
}

-- Where the line goes when thread `i` takes its turn.
abbrev pub Follows : System Mutex Place → List ℕ → Type 0
Follows t line = (line' : List ℕ) × Serve line line' × Stands t line'

abbrev Serves : System Mutex Place → List ℕ → ℕ → Turn Mutex Place → Type 0
Serves s line i (moved m p n) = Follows (record { shared = m; threads = set s.threads i p }) line
Serves s line i refused = Unit
Serves s line i failed = ⊥

module _ {s : System Mutex Place} {line : List ℕ} (v : Stands s line) (i : ℕ) where
  Stands-same :
      {p : Place}
      → get_elem? s.threads i ≡ some p
      → Follows (record s { threads = set s.threads i p }) line
  Stands-same here = (line, stay, rw (set-get_elem? s.threads i here) v)

  first_of_line : (xs : List ℕ) → get_elem? xs 0 ≡ some i → (rest : List ℕ) × (xs ≡ i ∷ rest)
  first_of_line [] e = cc
  first_of_line (x ∷ xs) e = (xs, ground arith)

  free-length : (s.shared.next == s.shared.curr) ≡ true → length line ≡ 0
  free-length e = ground (arith, v.next_ticket, v.word, short v)

  lock-Serves :
      get_elem? s.threads i ≡ some outside
      → Serves s line i (settle granted (in_lock s.shared.next) (lock s.shared))
  unfolding lock joined
  lock-Serves here = elim (Bool-cases (s.shared.next == s.shared.curr)) [
    | inl free ↦
        rw (free, lock)
          (line ++ i ∷ [], join i, Stands-join v i owner here (inr (free-length free, refl)))
    | inr busy ↦
        rw (busy, lock)
          (line ++ i ∷ [], join i, Stands-join v i (in_lock s.shared.next) here (inl refl))
  ]

  try_lock-Serves :
      get_elem? s.threads i ≡ some outside
      → Serves s line i (settle granted outside (try_lock s.shared))
  unfolding try_lock joined
  try_lock-Serves here = elim (Bool-cases (s.shared.next == s.shared.curr)) [
    | inl free ↦
        rw (free, try_lock)
          (line ++ i ∷ [], join i, Stands-join v i owner here (inr (free-length free, refl)))
    | inr busy ↦ rw (busy, try_lock) (Stands-same here)
  ]

  unlock-Serves :
      get_elem? s.threads i ≡ some owner
      → Serves s line i (settle (λ _. outside) owner (unlock s.shared))
  unfolding unlock left
  unlock-Serves here =
      let (rest, eq) = first_of_line line (owner_front v i here) in
      (rest, leave i eq, Stands-leave v i rest here eq)

  lock_loop-Serves :
      (request : ℕ)
      → get_elem? s.threads i ≡ some (in_lock request)
      → Serves s line i (settle granted (in_lock request) (lock_loop request s.shared))
  unfolding lock_loop entered
  lock_loop-Serves request here = elim (Bool-cases (request == s.shared.curr)) [
    | inl mine ↦ rw (mine, lock_loop) (line, stay, Stands-enter v i (ground arith))
    | inr busy ↦ rw (busy, lock_loop) (Stands-same here)
  ]

act-Serves :
    {s : System Mutex Place} {line : List ℕ} (i : ℕ) (a : Action Method) (p : Place)
    → Stands s line
    → get_elem? s.threads i ≡ some p
    → Serves s line i (act i a s.shared p)
unfolding act
act-Serves i (call locks) outside v here = lock-Serves v i here
act-Serves i (call try_locks) outside v here = try_lock-Serves v i here
act-Serves i (call unlocks) owner v here = unlock-Serves v i here
act-Serves i (wake _) (in_lock request) v here = lock_loop-Serves v i request here
act-Serves i a p v here = tt

-- Every turn of a thread is a step of the queue: it leaves the line as it is, joins it at its back, or
-- leaves it from its front.
pub Step-Serve :
    {s t : System Mutex Place} (line : List ℕ) → Stands s line → Step act s t → Follows t line
Step-Serve {s} line v (turn i a {p} here e) = subst (Serves s line i) e (act-Serves i a p v here)
