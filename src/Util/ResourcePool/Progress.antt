-- ===== src/Util/ResourcePool/Progress.antt =====
-- No thread is left in a wait.

use cppnet.Prelude.{ℕ, List, [], ◌∷◌, ◌≡◌, ◌<◌, ◌+◌, ◌-◌, ◌^◌, length, refl, ap, arith, zero, suc}
use cppnet.Util.ResourcePool.{end_wait, put_resource}
use cppnet.Util.ResourcePool.Threads.{
  System, start, Step, puts, resumes, Reach, notify, Serve, stays, serves, Serve-trans,
}
use cppnet.Util.ResourcePool.Invariant.{IsSound, Step-IsSound, Reach-IsSound}

abbrev pub waiting : System → ℕ
waiting s = s.asleep + s.woken

module _ (max_size : ℕ) (small : max_size < 2 ^ 63) (some_size : 0 < max_size) where
  -- With a resource in the pool, a woken thread takes it.
  resume_one :
      (s : System) (res : ℕ) (rest : List ℕ)
      → IsSound max_size s
      → s.pool.pool ≡ res ∷ rest
      → 0 < waiting s
      → (t : System) × Serve s t × IsSound max_size t × (waiting t + 1 ≡ waiting s)
  resume_one s res rest i e some_wait =
      let some_woken : 0 < s.woken = ground (arith, ap length e, i.called) in
      let t : System = record s {
        pool = (end_wait res rest s.pool).1;
        lent = res ∷ s.lent;
        woken = s.woken - 1;
      } in
      let step : Step s t = resumes res rest some_woken e refl in
      (t, serves stays step refl, Step-IsSound max_size small s t i step, omega arith)

  -- With an empty pool, a resource is lent; given back, it stands in the pool.
  give_back :
      (s : System) (res : ℕ) (rest : List ℕ)
      → IsSound max_size s
      → s.pool.pool ≡ []
      → s.lent ≡ res ∷ rest
      → 0 < waiting s
      → (t : System) × Serve s t
        × IsSound max_size t
        × (t.pool.pool ≡ res ∷ [])
        × (waiting t ≡ waiting s)
  unfolding put_resource
  give_back s res rest i e l some_wait =
      let t : System =
        notify (put_resource res s.pool).0
          (record s { pool = (put_resource res s.pool).1; lent = rest }) in
      let step : Step s t = puts [] res rest l refl in
      (
        t,
        serves stays step refl,
        Step-IsSound max_size small s t i step,
        ground (arith, e, i.waiting, some_wait),
        ground (arith, i.waiting, some_wait),
      )

  relieve :
      (s : System)
      → IsSound max_size s
      → 0 < waiting s
      → (t : System) × Serve s t × IsSound max_size t × (waiting t + 1 ≡ waiting s)
  relieve s i some_wait = by_pool s.pool.pool s.lent refl refl
    where
      by_pool :
          (pool lent : List ℕ)
          → s.pool.pool ≡ pool
          → s.lent ≡ lent
          → (t : System) × Serve s t × IsSound max_size t × (waiting t + 1 ≡ waiting s)
      by_pool (res ∷ rest) lent e l = resume_one s res rest i e some_wait
      by_pool [] [] e l = absurd (ground (arith, ap length e, ap length l, i.all))
      by_pool [] (res ∷ rest) e l =
          let given = give_back s res rest i e l some_wait in
          let taken = resume_one given.0 res [] given.2 given.3 (omega (arith, given.4)) in
          (taken.0, Serve-trans given.1 taken.1, taken.2, omega (arith, taken.3, given.4))

  drain :
      (n : ℕ) (s : System)
      → IsSound max_size s
      → waiting s ≡ n
      → (t : System) × Serve s t × (waiting t ≡ 0)
  drain zero s i e = (s, stays, e)
  drain (suc n) s i e =
      let one = relieve s i (omega arith) in
      let rest = drain n one.0 one.2 (omega (arith, one.3)) in
      (rest.0, Serve-trans one.1 rest.1, rest.2)

  -- No deadlock: from every state that threads reach from a new pool with a max_size that is not 0
  -- and below 2^63, steps that give lent resources back and that let notified threads take one lead
  -- to a state in which no thread waits, without a spurious wake-up.
  pub Reach-Serve :
      (target_size : ℕ) (s : System)
      → Reach (start target_size max_size) s
      → (t : System) × Serve s t × (waiting t ≡ 0)
  Reach-Serve target_size s r =
      drain (waiting s) s (Reach-IsSound max_size small target_size s r) refl
