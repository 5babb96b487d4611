-- ===== src/Checked/Shared/Ends.antt =====
-- include/checked_shared_mutex.hpp: what a section has to leave, and that the ends of the members leave it.
use yamc.Common.{
  ℕ, suc, ◌<◌, ◌≡◌, refl, Bool, true, false, Option, some, none, List, [], ◌∷◌, ◌++◌, ◌⊎◌, inl, inr,
  if◌then◌else◌, ◌==◌, ◌||◌, length, length-append, arith, subst,
}
use yamc.Threads.{Outcome, returned, waiting, aborted, silent}
use yamc.RwLock.Policy.{Policy, Lawful, max_count}
use yamc.Fair.WaitQueue.Chain.{In, In-snoc}
use yamc.Validator.{Validator, contains}
use yamc.Validator.Search.{Says, contains-Says}
use yamc.Checked.{Answer, thrown, Error, no_thread, tid}
use yamc.Checked.Shared.{Shared, take, enter, begin_wait, take_shared}
use yamc.Checked.Shared.Members.{Members, snoc-Members, Members-length}

-- How many writers `e_owner_` stands for.
abbrev pub writers : ℕ → ℕ
writers e = if e == no_thread then 0 else 1

module _ {State : Type 0} (Rep : State → ℕ → ℕ → ℕ → Type 0) (n : ℕ) where
  -- `w` threads wait to write, or are counted so; one thread owns the mutex, or some share it.
  abbrev pub Held : {V : Type 0} → ℕ → Shared State V → Type 0
  Held w s =
      Rep s.state w (writers s.e_owner) (length s.s_owner)
      × ((s.e_owner ≡ no_thread) ⊎ (s.s_owner ≡ []))
      × Members n s.s_owner

  -- The validator does not return when thread `i` is about to wait for mutex `k`, with this table.
  abbrev pub NoAnswer : {V : Type 0} → Validator V → ℕ → ℕ → V → Type 0
  NoAnswer W k i v = W.enqueue k (tid i) v ≡ none

  -- No thread but `i` is added to `s_owner_`.
  abbrev pub Grows : ℕ → List ℕ → List ℕ → Type 0
  Grows i l m = (x : ℕ) → In x m → In x l ⊎ (x ≡ tid i)

  -- What a section of thread `i` leaves, where `s_owner_` was `l`: `a` counted writers if it ends, `b` if it
  -- has thrown `deadlock`, `c` if it waits. It fails only where `Q` holds.
  abbrev pub Ends :
      {V : Type 0} → Type 0 → ℕ → List ℕ → ℕ → ℕ → ℕ → Outcome (Shared State V) Answer → Type 0
  Ends Q i l a b c (returned s (thrown Error.deadlock) _) = Held b s × Grows i l s.s_owner
  Ends Q i l a b c (returned s _ _) = Held a s × Grows i l s.s_owner
  Ends Q i l a b c (waiting s _) = Held c s × (s.s_owner ≡ l) × (In (tid i) l → ⊥)
  Ends Q i l a b c aborted = Q

pub empty_of : (l : List ℕ) → length l ≡ 0 → l ≡ []
empty_of [] e = refl
empty_of (x ∷ l) e = absurd (omega arith)

pub free_of : (e : ℕ) → writers e ≡ 0 → e ≡ no_thread
free_of e h = ground arith

pub not_owner : (a b : Bool) → (a || b) ≡ false → b ≡ false
not_owner a b e = ground arith

pub out_of : (xs : List ℕ) (a : ℕ) → contains xs a ≡ false → In a xs → ⊥
out_of xs a e = subst (λ b. Says b (In a xs)) e (contains-Says xs a)

pub into : (xs : List ℕ) (a : ℕ) → contains xs a ≡ true → In a xs
into xs a e = subst (λ b. Says b (In a xs)) e (contains-Says xs a)

snoc-Grows : (i : ℕ) (l : List ℕ) (x : ℕ) → In x (l ++ tid i ∷ []) → In x l ⊎ (x ≡ tid i)
snoc-Grows i l x j = In-snoc (tid i) l x j

module _ {State V : Type 0} {P : Policy State} {Rep : State → ℕ → ℕ → ℕ → Type 0} (L : Lawful P Rep)
    (W : Validator V) (n : ℕ) (few : n < max_count) (k i : ℕ) (mine : i < n) (w b c : ℕ) where
  -- The ends of the members.
  module _ (s : Shared State V) where
    pub take-Ends :
        Held Rep n w s
        → P.wait_wlock s.state ≡ false
        → Ends Rep n (NoAnswer Rep n W k i s.table) i s.s_owner w b c (take P W k i s)
    unfolding take
    take-Ends h free =
        let (no_writer, no_reader) =
          L.wait_wlock_free s.state w (writers s.e_owner) (length s.s_owner) h.0 free in
        let (t, e, r) = L.acquire_wlock_rep s.state w (
          subst (λ x. Rep s.state w x 0) no_writer
            (subst (λ x. Rep s.state w (writers s.e_owner) x) no_reader h.0)) in
        let none_shared = empty_of s.s_owner no_reader in
        let owned : writers (tid i) ≡ 1 = ground arith in
        rw (e, take) ((rw owned (rw no_reader r), inr none_shared, h.2), λ x j. inl j)

    pub take_shared-Ends :
        Held Rep n w s
        → P.wait_rlock s.state ≡ false
        → (In (tid i) s.s_owner → ⊥)
        → Ends Rep n (NoAnswer Rep n W k i s.table) i s.s_owner w b c (take_shared P W k i s)
    unfolding take_shared
    take_shared-Ends h free new =
        let no_writer =
          L.wait_rlock_free s.state w (writers s.e_owner) (length s.s_owner) h.0 free in
        let (t, e, r) =
          L.acquire_rlock_rep s.state w (length s.s_owner)
            (subst (λ x. Rep s.state w x (length s.s_owner)) no_writer h.0)
            (omega (arith, Members-length n s.s_owner h.2)) in
        let longer : length (s.s_owner ++ tid i ∷ []) ≡ suc (length s.s_owner) =
          omega (arith, length-append s.s_owner (tid i ∷ [])) in
        rw (e, take_shared)
          (
            (
              rw (no_writer, longer) r,
              inl (free_of s.e_owner no_writer),
              snoc-Members n (tid i) s.s_owner (omega arith) (omega arith) new h.2,
            ),
            snoc-Grows i s.s_owner,
          )

    pub begin_wait-Ends :
        Held Rep n b s
        → b ≡ c
        → (In (tid i) s.s_owner → ⊥)
        → Ends Rep n (NoAnswer Rep n W k i s.table) i s.s_owner w b c (begin_wait P W k i s)
    unfolding begin_wait
    begin_wait-Ends h e new = answered (W.enqueue k (tid i) s.table) refl
      where
        answered :
            (o : Option (Bool × V))
            → W.enqueue k (tid i) s.table ≡ o
            → Ends Rep n (NoAnswer Rep n W k i s.table) i s.s_owner w b c (elim o [
              | none ↦ aborted
              | some (go_on, t) ↦
                  if go_on
                  then waiting (record s { table = t }) silent
                  else returned (record s { table = t }) (thrown Error.deadlock) silent
            ])
        answered none f = f
        answered (some (true, t)) f =
            (subst (λ x. Held Rep n x (record s { table = t })) e h, refl, new)
        answered (some (false, t)) f = (h, λ x j. inl j)

  module _ (s : Shared State V) where
    pub enter-Ends :
        Held Rep n (suc w) s
        → P.wait_wlock s.state ≡ false
        → Ends Rep n (NoAnswer Rep n W k i s.table) i s.s_owner w b c (enter P W k i s)
    unfolding enter
    enter-Ends h free =
        let (no_writer, no_reader) =
          L.wait_wlock_free s.state (suc w) (writers s.e_owner) (length s.s_owner) h.0 free in
        let (t, e, r) =
          L.after_wait_wlock_rep s.state w (writers s.e_owner) (length s.s_owner) h.0 in
        rw (e, enter)
          (take-Ends (record s { state = t }) (r, h.1, h.2)
            (L.wait_wlock_held t w (
              subst (λ x. Rep t w x 0) no_writer
                (subst (λ x. Rep t w (writers s.e_owner) x) no_reader r))))
