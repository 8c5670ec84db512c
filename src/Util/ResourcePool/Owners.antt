-- ===== src/Util/ResourcePool/Owners.antt =====
-- No resource has two owners.

use cppnet.Prelude.{ℕ, List, [], ap, arith, if◌then◌else◌, ltb, ◌++◌, ◌+◌, ◌==◌, ◌∷◌, ◌≡◌, ◌≤◌}
use cppnet.Util.ResourcePool.{get_resource, start_wait, end_wait, try_get, put_resource}
use cppnet.Util.ResourcePool.Threads.{
  System, start, Step, Reach, gets, waits, tries, puts, resumes, sleeps, wakes, here, next,
}

-- How often a resource stands in a list.
abbrev pub occurrences : ℕ → List ℕ → ℕ
occurrences res [] = 0
occurrences res (x ∷ xs) = (if x == res then 1 else 0) + occurrences res xs

occurrences-append :
    (res : ℕ) (xs ys : List ℕ)
    → occurrences res (xs ++ ys) ≡ occurrences res xs + occurrences res ys
occurrences-append res [] ys = omega arith
occurrences-append res (x ∷ xs) ys = omega (arith, occurrences-append res xs ys)

-- A resource that was made is lent once, or stands in the pool once, or was dropped; one that was
-- not made is nowhere.
abbrev pub IsOwned : System → ℕ → Type 0
IsOwned s res =
    occurrences res s.lent + occurrences res s.pool.pool ≤ (if ltb res s.pool.made then 1 else 0)

Step-IsOwned : (s t : System) (res : ℕ) → IsOwned s res → Step s t → IsOwned t res
unfolding get_resource start_wait end_wait try_get put_resource
Step-IsOwned s t r i (gets res p e h) = ground arith
Step-IsOwned s t r i (waits n e h) = ground arith
Step-IsOwned s t r i (tries res p e h) = ground arith
Step-IsOwned s t r i (puts before res after e h) = ground (
  arith,
  ap (occurrences r) e,
  occurrences-append r before (res ∷ after),
  occurrences-append r before after,
)
Step-IsOwned s t r i (resumes res rest w e h) = ground (arith, ap (occurrences r) e)
Step-IsOwned s t r i (sleeps w e h) = ground arith
Step-IsOwned s t r i (wakes w h) = ground arith

-- In every state that the threads reach from a new pool, a resource is lent once, or stands in the
-- pool once, or neither, and only if make has made it.
pub Reach-IsOwned :
    (target_size max_size : ℕ) (s : System) (res : ℕ)
    → Reach (start target_size max_size) s
    → IsOwned s res
unfolding start
Reach-IsOwned target_size max_size s res here = omega arith
Reach-IsOwned target_size max_size s res (next {t} r st) =
    Step-IsOwned t s res (Reach-IsOwned target_size max_size t res r) st
