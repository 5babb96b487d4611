-- ===== src/Fair/Shared/Timeout.antt =====
-- include/fair_shared_mutex.hpp: `impl_try_lockwait` after a timeout.
use mathlib.Core.List.{append_assoc}
use yamc.Common.{
  if◌then◌else◌, ◌==◌, length, arith, inl, inr, Bool-cases, sym, subst, ◌∙◌, ap, ℕ, ◌<◌, ◌≡◌, ◌≢◌,
  refl, List, [], ◌∷◌, ◌++◌, some, true, false,
}
use yamc.Threads.{returned, notify_all, silent}
use yamc.Fair.WaitQueue.{Store, queue, request, wq_erase}
use yamc.Fair.WaitQueue.Chain.{Chain, Queued, last, Distinct-apart}
use yamc.Fair.WaitQueue.Remove.{wq_erase-Queued}
use yamc.Fair.Shared.{masked, mark_group, impl_try_lockwait_timeout}
use yamc.Fair.Shared.Phase.{Waiting, wq_erase-status}
use yamc.Fair.Shared.Group.{group, front_next, Marked, mark_group-Marked}

-- The nodes that may lock once the thread that waits behind `before` has given up.
abbrev pub opened_by_timeout : Store → ℕ → List ℕ → List ℕ
opened_by_timeout h before xs = if masked (h.status before) == 3 then group h.status xs else []

prev_of :
    (h : Store) (a : ℕ) (us : List ℕ) (x : ℕ) (xs : List ℕ)
    → Chain h a ((us ++ x ∷ xs) ++ queue ∷ [])
    → h.prev x ≡ last a us
prev_of h a [] x xs c = c.0.1
prev_of h a (u ∷ us) x xs c = prev_of h u us x xs c.1

test_fails : (a b : ℕ) → a ≢ b → (a == b) ≡ false
test_fails a b ne = ground arith

module _ (fuel i : ℕ) (h : Store) (ne : h.next queue ≢ request i) where
  timeout_alone :
      (masked (h.status (h.prev (request i))) == 3) ≡ false
      → impl_try_lockwait_timeout fuel i h ≡ returned (wq_erase (request i) h) false silent
  unfolding impl_try_lockwait_timeout
  timeout_alone e = ground arith

  timeout_opens :
      (g : Store)
      → (masked (h.status (h.prev (request i))) == 3) ≡ true
      → mark_group fuel (h.next (request i)) h ≡ some g
      → impl_try_lockwait_timeout fuel i h ≡ returned (wq_erase (request i) g) false notify_all
  unfolding impl_try_lockwait_timeout
  timeout_opens g e m = rw (test_fails (h.next queue) (request i) ne) (rw e (rw m refl))

pub timeout_opens_group :
    (fuel i : ℕ) (h : Store) (u : ℕ) (us xs : List ℕ)
    → Queued h ((u ∷ us) ++ request i ∷ xs)
    → Waiting h.status h xs
    → length xs < fuel
    → (g : Store) × (impl_try_lockwait_timeout fuel i h
        ≡ returned g false (if masked (h.status (last u us)) == 3 then notify_all else silent))
      × Queued g ((u ∷ us) ++ xs)
      × Marked (opened_by_timeout h (last u us) xs) h g
timeout_opens_group fuel i h u us xs q w lt =
    let r = request i in
    let not_front : h.next queue ≢ r =
      λ e. Distinct-apart (u ∷ us) (r ∷ xs) u r q.1.1 (inl refl) (inl refl) (sym q.0.0.0 ∙ e) in
    let before = prev_of h queue (u ∷ us) r xs q.0 in
    elim (Bool-cases (masked (h.status (last u us)) == 3)) [
      | inl e ↦
          let start : Queued h (((u ∷ us) ++ r ∷ []) ++ xs) =
            subst (Queued h) (sym (append_assoc (u ∷ us) (r ∷ []) xs)) q in
          let (g, run, queued, (marked, others)) =
            mark_group-Marked h.status xs ((u ∷ us) ++ r ∷ []) h fuel start w lt in
          (
            wq_erase r g,
            timeout_opens fuel i h not_front g (ap (λ p. masked (h.status p) == 3) before ∙ e) (
                  subst (λ a. mark_group fuel a h ≡ some g)
                    (sym (front_next h queue (u ∷ us) r xs q.0)) run)
                ∙ rw e refl,
            wq_erase-Queued g r (u ∷ us) xs
                (subst (Queued g) (append_assoc (u ∷ us) (r ∷ []) xs) queued),
            rw e (
              (λ c j. ap (λ f. f c) (wq_erase-status r g) ∙ marked c j),
              λ c f. ap (λ f. f c) (wq_erase-status r g) ∙ others c f,
            ),
          )
      | inr e ↦ (
        wq_erase r h,
        timeout_alone fuel i h not_front (ap (λ p. masked (h.status p) == 3) before ∙ e)
            ∙ rw e refl,
        wq_erase-Queued h r (u ∷ us) xs q,
        rw e ((λ c j. absurd j), λ c f. ap (λ k. k c) (wq_erase-status r h)),
      )
    ]
