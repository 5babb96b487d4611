-- ===== src/Validator/WaitsFor.antt =====
-- include/yamc_lock_validator.hpp: who waits for whom in a table.
use mathlib.Core.WellFounded.{Acc}
use yamc.Common.{eq_or_ne, ◌⊎◌, inl, inr, Bool-cases, ◌==◌, arith, ◌⊎◌, ℕ, ◌≡◌, ◌≢◌, List, [], ◌∷◌}
use yamc.Validator.{remove_elem, Entry}
use yamc.Fair.WaitQueue.Chain.{In}

-- `t` owns a mutex that `w` waits for.
abbrev pub Blocks : List Entry → ℕ → ℕ → Type 0
Blocks [] t w = ⊥
Blocks (e ∷ es) t w = (In t e.owners × In w e.waiters) ⊎ Blocks es t w

-- The same, at a mutex other than `end`.
abbrev pub BlocksBut : ℕ → List Entry → ℕ → ℕ → Type 0
BlocksBut end [] t w = ⊥
BlocksBut end (e ∷ es) t w = ((e.key ≢ end) × In t e.owners × In w e.waiters) ⊎ BlocksBut end es t w

-- `t` owns the mutex `end`.
abbrev pub Owns : ℕ → List Entry → ℕ → Type 0
Owns end [] t = ⊥
Owns end (e ∷ es) t = ((e.key ≡ end) × In t e.owners) ⊎ Owns end es t

-- `w` waits for some mutex.
abbrev pub Waits : List Entry → ℕ → Type 0
Waits [] w = ⊥
Waits (e ∷ es) w = In w e.waiters ⊎ Waits es w

-- A chain of waits leads from `t` to an owner of `end`.
pub data Leads (m : List Entry) (end : ℕ) : ℕ → Type 0 where
  owner : {t : ℕ} → Owns end m t → Leads m end t
  via : {t w : ℕ} → BlocksBut end m t w → Leads m end w → Leads m end t

-- No thread waits, through others or not, for itself.
abbrev pub Acyclic : List Entry → Type 0
Acyclic m = (t : ℕ) → Acc (λ w u. Blocks m u w) t

pub Blocks-BlocksBut :
    (end : ℕ) (m : List Entry) (t w : ℕ) → Blocks m t w → BlocksBut end m t w ⊎ Owns end m t
Blocks-BlocksBut end [] t w b = inl b
Blocks-BlocksBut end (e ∷ es) t w (inl (o, i)) = elim (eq_or_ne e.key end) [
  | inl at ↦ inr (inl (at, o))
  | inr off ↦ inl (inl (off, o, i))
]
Blocks-BlocksBut end (e ∷ es) t w (inr b) = elim (Blocks-BlocksBut end es t w b) [
  | inl c ↦ inl (inr c)
  | inr o ↦ inr (inr o)
]

pub BlocksBut-Blocks : (end : ℕ) (m : List Entry) (t w : ℕ) → BlocksBut end m t w → Blocks m t w
BlocksBut-Blocks end [] t w b = b
BlocksBut-Blocks end (e ∷ es) t w (inl (off, o, i)) = inl (o, i)
BlocksBut-Blocks end (e ∷ es) t w (inr b) = inr (BlocksBut-Blocks end es t w b)

pub In-remove_elem : (xs : List ℕ) (a c : ℕ) → In c (remove_elem xs a) → In c xs × (c ≢ a)
In-remove_elem [] a c i = absurd i
In-remove_elem (x ∷ xs) a c i = elim (Bool-cases (x == a)) [
  | inl e ↦ let (j, ne) = In-remove_elem xs a c (rw e at i) in (inr j, ne)
  | inr e ↦ elim (rw e at i) [
    | inl f ↦ (inl f, λ g. ground arith)
    | inr j ↦ let (k, ne) = In-remove_elem xs a c j in (inr k, ne)
  ]
]
