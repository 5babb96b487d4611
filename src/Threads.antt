-- ===== src/Threads.antt =====
-- Threads over a shared object whose methods hold the object's `std::mutex mtx_` from entry to
-- return, except while they wait on its `std::condition_variable cv_`. So a method is a row of
-- sections that run without interruption: from its entry to a return or to the first wait, and from
-- each wake-up to a return or to the next wait. A waiter may wake at any time, as the standard allows.
pub mod Places
use yamc.Common.{ℕ, ◌≡◌, Bool, Option, none, some, List, get_elem?, set, ◌⊎◌, inl, inr, ◌+◌}

-- What a section does to `cv_` before it gives `mtx_` up.
pub data Notice : Type 0 where
  silent notify_one notify_all : Notice

-- How a section ends: the method returns a value, it waits, or an assertion fails.
pub data Outcome (S R : Type 0) : Type 0 where
  returned : S → R → Notice → Outcome S R
  waiting : S → Notice → Outcome S R
  aborted : Outcome S R

-- An assertion, or a step that holds one, before the rest of a section.
infixl 5 ◌>>=◌
abbrev pub ◌>>=◌ : {A S R : Type 0} → Option A → (A → Outcome S R) → Outcome S R
none >>= f = aborted
some a >>= f = f a

-- A thread's turn: it moves on, the caller's contract forbids the call, or an assertion fails.
pub data Turn (S L : Type 0) : Type 0 where
  moved : S → L → Notice → Turn S L
  refused : Turn S L
  failed : Turn S L

-- Where a thread stands after a section: at `next r` once the method has returned `r`, or at `wait`.
abbrev pub settle : {S R L : Type 0} → (R → L) → L → Outcome S R → Turn S L
settle next wait (returned s r n) = moved s (next r) n
settle next wait (waiting s n) = moved s wait n
settle next wait aborted = failed

-- The shared object, and where each thread stands.
pub record System (S L : Type 0) : Type 0 where
  pub shared : S
  pub threads : List L

-- What a thread may do: call a method, or wake from a wait, with a timeout or without.
pub data Action (M : Type 0) : Type 0 where
  call : M → Action M
  wake : (timeout : Bool) → Action M

module _ {S L A : Type 0} (act : ℕ → A → S → L → Turn S L) where
  -- Thread `i` takes its turn; `act` is given its number, which stands for its `std::thread::id`.
  pub data Step (s : System S L) : System S L → Type 0 where
    turn :
        (i : ℕ) (a : A) {p p' : L} {m : S} {n : Notice}
        → get_elem? s.threads i ≡ some p
        → act i a s.shared p ≡ moved m p' n
        → Step s (record { shared = m; threads = set s.threads i p' })

  pub data Reach (s : System S L) : System S L → Type 0 where
    start : Reach s s
    later : {t u : System S L} → Reach s t → Step t u → Reach s u

  -- A property holds of some state of a run.
  abbrev pub Once : {s t : System S L} → (System S L → Type 0) → Reach s t → Type 0
  Once {s} P start = P s
  Once P (later {t} {u} r st) = Once P r ⊎ P u

  -- An invariant that each step keeps, or that ends in a state with the property.
  pub Reach-unless :
      (P I : System S L → Type 0)
      → ((s t : System S L) → Step s t → I s → P t ⊎ I t)
      → {s t : System S L} (r : Reach s t) → I s
      → Once P r ⊎ I t
  Reach-unless P I keep start h = inr h
  Reach-unless P I keep (later {t} {u} r st) h = elim (Reach-unless P I keep r h) [
    | inl o ↦ inl (inl o)
    | inr i ↦ elim (keep t u st i) [ inl p ↦ inl (inr p) | inr j ↦ inr j ]
  ]

  abbrev pub turns : {s t : System S L} → Reach s t → ℕ
  turns start = 0
  turns (later r st) = turns r + 1

  -- An invariant that each step keeps holds in every state that is reached.
  pub Reach-inv {ℓ} :
      (I : System S L → Type ℓ)
      → ((s t : System S L) → Step s t → I s → I t)
      → {s t : System S L} → Reach s t
      → I s
      → I t
  Reach-inv I keep start h = h
  Reach-inv I keep (later r st) h = keep _ _ st (Reach-inv I keep r h)
