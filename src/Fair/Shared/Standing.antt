-- ===== src/Fair/Shared/Standing.antt =====
-- include/fair_shared_mutex.hpp: what stands of the other threads after a turn.
use yamc.Common.{ℕ, ◌≤◌, ◌≡◌, ◌≢◌, ◌⊎◌, refl, inl, inr, List, arith}
use yamc.Fair.WaitQueue.{Store, request}
use yamc.Fair.WaitQueue.Chain.{In}
use yamc.Fair.Shared.Places.{
  Place, outside, in_lock, in_lock_until, in_lock_shared, in_lock_shared_until, owner, shared_owner,
}
use yamc.Fair.Shared.Line.{Held}
use yamc.Fair.Shared.Turns.{shares, waits, Stands, Kept}

pub shares-le : (p : Place) → shares p ≤ 1
shares-le outside = omega arith
shares-le in_lock = omega arith
shares-le in_lock_until = omega arith
shares-le in_lock_shared = omega arith
shares-le in_lock_shared_until = omega arith
shares-le owner = omega arith
shares-le shared_owner = omega arith

pub waits-le : (p : Place) → waits p ≤ 1
waits-le outside = omega arith
waits-le in_lock = omega arith
waits-le in_lock_until = omega arith
waits-le in_lock_shared = omega arith
waits-le in_lock_shared_until = omega arith
waits-le owner = omega arith
waits-le shared_owner = omega arith

-- A thread whose request is in the queue waits.
pub waiting :
    (i : ℕ) (p : Place) (st : ℕ → ℕ) (l : List ℕ) → Stands i p st l → In (request i) l → waits p ≡ 1
waiting i outside st l out j = absurd (out j)
waiting i in_lock st l s j = refl
waiting i in_lock_until st l s j = refl
waiting i in_lock_shared st l s j = refl
waiting i in_lock_shared_until st l s j = refl
waiting i owner st l out j = absurd (out j)
waiting i shared_owner st l out j = absurd (out j)

module _ (i j : ℕ) {h : Store} {held : Held} {l : List ℕ} {p : Place} {h' : Store} {held' : Held}
    {l' : List ℕ} {p' : Place} (k : Kept i h held l p h' held' l' p')
    (ne : request j ≢ request i) where
  exclusive_stays :
      In (request j) l × (h.status (request j) ≡ 0)
      → In (request j) l' × (h'.status (request j) ≡ 0)
  exclusive_stays (there, z) = (
    (k.stays (request j) ne).0 there,
    elim (k.others (request j) ne there) [
      | inl same ↦ omega (arith, same, z)
      | inr change ↦ omega (arith, change.0, z)
    ],
  )

  shared_stays :
      In (request j) l × ((h.status (request j) ≡ 1) ⊎ (h.status (request j) ≡ 3))
      → In (request j) l' × ((h'.status (request j) ≡ 1) ⊎ (h'.status (request j) ≡ 3))
  shared_stays (there, s) = (
    (k.stays (request j) ne).0 there,
    elim (k.others (request j) ne there) [
      | inl same ↦ elim s [
        | inl one ↦ inl (omega (arith, same, one))
        | inr three ↦ inr (omega (arith, same, three))
      ]
      | inr change ↦ inr change.1
    ],
  )

  -- What stands of another thread still does.
  pub other-Stands : (r : Place) → Stands j r h.status l → Stands j r h'.status l'
  other-Stands outside out = λ there. out ((k.stays (request j) ne).1 there)
  other-Stands owner out = λ there. out ((k.stays (request j) ne).1 there)
  other-Stands shared_owner out = λ there. out ((k.stays (request j) ne).1 there)
  other-Stands in_lock s = exclusive_stays s
  other-Stands in_lock_until s = exclusive_stays s
  other-Stands in_lock_shared s = shared_stays s
  other-Stands in_lock_shared_until s = shared_stays s
