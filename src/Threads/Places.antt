-- ===== src/Threads/Places.antt =====
-- An invariant that ties the place of each thread to the shared object: what each turn has to keep, and
-- that it then holds in every state that is reached.
use yamc.Common.{
  ℕ, ◌≡◌, ◌≢◌, inl, inr, some, subst, sym, replicate, get_elem?, get_elem?-set_inv,
  get_elem?-replicate,
}
use yamc.Threads.{Turn, moved, refused, failed, System, Step, turn, Reach, Reach-inv}

module _ {S L : Type 0} (Sound : S → Type 0) (Fits : ℕ → L → S → Type 0) where
  -- Thread `i` leaves the object right and stands at a place that fits it, and every place where another
  -- thread may stand still fits.
  abbrev pub Kept : ℕ → S → S → L → Type 0
  Kept i s t p = Sound t × Fits i p t × ((j : ℕ) (q : L) → j ≢ i → Fits j q s → Fits j q t)

  abbrev pub TurnKept : ℕ → S → Turn S L → Type 0
  TurnKept i s (moved t p n) = Kept i s t p
  TurnKept i s refused = Unit {0}
  TurnKept i s failed = ⊥

  pub record Inv (s : System S L) : Type 0 where
    pub sound : Sound s.shared
    pub fits : (i : ℕ) (p : L) → get_elem? s.threads i ≡ some p → Fits i p s.shared

  pub replicate-Inv :
      (n : ℕ) (s : S) (p : L)
      → Sound s
      → ((i : ℕ) → Fits i p s)
      → Inv (record { shared = s; threads = replicate n p })
  replicate-Inv n s p sound fits = record {
    sound = sound;
    fits = λ i q at. subst (λ r. Fits i r s) (sym (get_elem?-replicate n p i at)) (fits i);
  }

  module _ {A : Type 0} (act : ℕ → A → S → L → Turn S L)
      (keep : (i : ℕ) (a : A) (s : S) (p : L)
        → Sound s
        → Fits i p s
        → TurnKept i s (act i a s p)) where
    Step-Inv : (s t : System S L) → Step act s t → Inv s → Inv t
    Step-Inv s t (turn i a {p} {p'} {m} at e) v =
        let (sound, here, others) =
          subst (TurnKept i s.shared) e (keep i a s.shared p v.sound (v.fits i p at)) in
        record {
          sound = sound;
          fits = λ j q at'. elim (get_elem?-set_inv s.threads i j p' at') [
            | inl (same, now) ↦
                subst (λ x. Fits x q m) same (subst (λ x. Fits i x m) (sym now) here)
            | inr (ne, before) ↦ others j q (λ same. ne (sym same)) (v.fits j q before)
          ];
        }

    pub Reach-Inv : {s t : System S L} → Reach act s t → Inv s → Inv t
    Reach-Inv r v = Reach-inv act Inv Step-Inv r v

    -- No turn of a thread that stands at its place fails.
    pub never_fails :
        (s : System S L) (i : ℕ) (a : A) (p : L)
        → Inv s
        → get_elem? s.threads i ≡ some p
        → act i a s.shared p ≢ failed
    never_fails s i a p v at e =
        subst (TurnKept i s.shared) e (keep i a s.shared p v.sound (v.fits i p at))
