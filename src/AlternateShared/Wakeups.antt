-- ===== src/AlternateShared/Wakeups.antt =====
-- include/alternate_shared_mutex.hpp: which turns let a waiting thread go on, and whether they notify
-- `cv_`, under each of the two policies.
pub mod Reader
pub mod Writer
use yamc.Common.{Bool, false}
use yamc.RwLock.Policy.{Policy}
use yamc.AlternateShared.{Place, in_lock, in_lock_until, in_lock_shared, in_lock_shared_until}

-- Whether a thread at this place would wait again if it woke now.
abbrev pub blocked : {State : Type 0} → Policy State → State → Place → Bool
blocked P s in_lock = P.wait_wlock s
blocked P s in_lock_until = P.wait_wlock s
blocked P s in_lock_shared = P.wait_rlock s
blocked P s in_lock_shared_until = P.wait_rlock s
blocked P s _ = false
