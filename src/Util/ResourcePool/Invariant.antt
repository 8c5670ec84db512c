-- ===== src/Util/ResourcePool/Invariant.antt =====
-- What holds in every state that the threads reach.

use cppnet.Prelude.{
  ℕ, arith, length, refl, ◌+◌, ◌<◌, ◌^◌, ◌≡◌, ◌≤◌, ap, inl, ◌⊎◌, length-append, ◌∷◌,
}
use cppnet.Util.ResourcePool.{get_resource, start_wait, end_wait, try_get, put_resource}
use cppnet.Util.ResourcePool.Threads.{
  System, start, Step, gets, waits, tries, puts, resumes, sleeps, wakes, Reach, here, next,
}

-- The counts are exact, the resources are at most max_size, all of them exist while a thread waits,
-- and where a thread sleeps, as many are woken as there are resources in the pool.
pub record IsSound (max_size : ℕ) (s : System) : Type 0 where
  pub limit : s.pool.max_size ≡ max_size
  pub threads : s.asleep + s.woken ≤ 2 ^ 62
  pub borrowed : s.pool.num_borrowed ≡ length s.lent
  pub waiting : s.pool.num_waiting ≡ s.asleep + s.woken
  pub few : length s.lent + length s.pool.pool ≤ max_size
  pub all : (s.asleep + s.woken ≡ 0) ⊎ (length s.lent + length s.pool.pool ≡ max_size)
  pub called : (s.asleep ≡ 0) ⊎ (length s.pool.pool ≤ s.woken)

start-IsSound : (target_size max_size : ℕ) → IsSound max_size (start target_size max_size)
unfolding start
start-IsSound target_size max_size = record {
  limit = refl;
  threads = omega arith;
  borrowed = refl;
  waiting = refl;
  few = omega arith;
  all = inl refl;
  called = inl refl;
}

module _ (max_size : ℕ) (small : max_size < 2 ^ 63) where
  pub Step-IsSound : (s t : System) → IsSound max_size s → Step s t → IsSound max_size t
  unfolding get_resource start_wait end_wait try_get put_resource
  Step-IsSound s t i (gets res p e h) = ground arith
  Step-IsSound s t i (waits n e h) = ground arith
  Step-IsSound s t i (tries res p e h) = ground arith
  Step-IsSound s t i (puts before res after e h) =
      ground (arith, ap length e, length-append before (res ∷ after), length-append before after)
  Step-IsSound s t i (resumes res rest w e h) = ground (arith, ap length e)
  Step-IsSound s t i (sleeps w e h) = ground (arith, ap length e)
  Step-IsSound s t i (wakes w h) = ground arith

  -- From a new pool of at most max_size resources, below 2^63, in every state that is reached: the
  -- count of borrowed resources is the number of lent ones, that of waiting threads is exact, at
  -- most max_size resources exist, that many while a thread waits, and where a thread sleeps, as
  -- many are woken as there are resources in the pool.
  pub Reach-IsSound :
      (target_size : ℕ) (s : System) → Reach (start target_size max_size) s → IsSound max_size s
  Reach-IsSound target_size s here = start-IsSound target_size max_size
  Reach-IsSound target_size s (next {t} r st) = Step-IsSound t s (Reach-IsSound target_size t r) st
