-- ===== src/Fair/WaitQueue/Examples.antt =====
-- include/fair_mutex.hpp, include/fair_shared_mutex.hpp: the wait queue at concrete stores.
use yamc.Common.{◌≡◌, refl, [], ◌∷◌, arith}
use yamc.Fair.WaitQueue.{Store, queue, wq_push_front, wq_push_back, wq_erase, replace_front, init}
use yamc.Fair.WaitQueue.Chain.{Queued}
use yamc.Fair.WaitQueue.Push.{wq_push_front-Queued, wq_push_back-Queued}
use yamc.Fair.WaitQueue.Remove.{wq_erase-Queued, replace_front-Queued}

init-Queued : Queued init []
init-Queued = (((refl, refl), tt), (tt, tt))

abbrev two : Store
two = wq_push_back 3 (wq_push_back 2 init)

wq_push_back-Queued_example : Queued (wq_push_back 2 init) (2 ∷ [])
wq_push_back-Queued_example = wq_push_back-Queued init 2 [] init-Queued (omega arith)

one-Queued : Queued (wq_push_back 2 init) (2 ∷ [])
one-Queued = wq_push_back-Queued init 2 [] init-Queued (omega arith)

two-Queued : Queued two (2 ∷ 3 ∷ [])
two-Queued = wq_push_back-Queued (wq_push_back 2 init) 3 (2 ∷ []) one-Queued (omega arith)

wq_push_front-Queued_example : Queued (wq_push_front 1 two) (1 ∷ 2 ∷ 3 ∷ [])
wq_push_front-Queued_example = wq_push_front-Queued two 1 (2 ∷ 3 ∷ []) two-Queued (omega arith)

wq_erase-Queued_example : Queued (wq_erase 2 two) (3 ∷ [])
wq_erase-Queued_example = wq_erase-Queued two 2 [] (3 ∷ []) two-Queued

replace_front-Queued_example : Queued (replace_front 1 two) (1 ∷ 3 ∷ [])
replace_front-Queued_example = replace_front-Queued two 1 2 (3 ∷ []) two-Queued (omega arith)

-- The queue, walked from both ends.
walk_forward : (two.next queue ≡ 2) × (two.next 2 ≡ 3) × (two.next 3 ≡ queue)
unfolding wq_push_back
walk_forward = (refl, refl, refl)

walk_backward : (two.prev queue ≡ 3) × (two.prev 3 ≡ 2) × (two.prev 2 ≡ queue)
unfolding wq_push_back
walk_backward = (refl, refl, refl)
