-- ===== src/Util/ResourcePool/Threads.antt =====
-- Threads that borrow from a pool: what each of them may do next. They give back only what they have
-- borrowed, though `put` takes any resource.

use cppnet.Prelude.{
  ℕ, List, Bool, [], false, if◌then◌else◌, none, some, true, ◌++◌, ◌+◌, ◌-◌, ◌<◌, ◌==◌, ◌∷◌, ◌≡◌,
  ◌^◌,
}
use cppnet.Util.ResourcePool.{
  Pool, new_pool, get_resource, start_wait, end_wait, try_get, put_resource,
}

-- The pool, what is lent, and the threads in a wait: those that sleep, and those that were woken and
-- have not taken the lock again.
pub record System : Type 0 where
  pub pool : Pool
  pub lent : List ℕ
  pub asleep : ℕ
  pub woken : ℕ

unfoldable pub start : ℕ → ℕ → System
unfolding new_pool
start target_size max_size = record {
  pool = new_pool target_size max_size;
  lent = [];
  asleep = 0;
  woken = 0;
}

-- `notify_one`, if `put` has called it.
abbrev pub notify : Bool → System → System
notify false s = s
notify true s = if s.asleep == 0 then s else record s { asleep = s.asleep - 1; woken = s.woken + 1 }

pub data Step (s : System) (t : System) : Type 0 where
  gets :
      (res : ℕ) (p : Pool)
      → get_resource s.pool ≡ some (res, p)
      → t ≡ record s { pool = p; lent = res ∷ s.lent }
      → Step s t
  -- There are fewer than 2^62 threads.
  waits :
      s.asleep + s.woken < 2 ^ 62
      → get_resource s.pool ≡ none
      → t ≡ record s { pool = start_wait s.pool; asleep = s.asleep + 1 }
      → Step s t
  tries :
      (res : ℕ) (p : Pool)
      → try_get s.pool ≡ some (res, p)
      → t ≡ record s { pool = p; lent = res ∷ s.lent }
      → Step s t
  puts :
      (before : List ℕ) (res : ℕ) (after : List ℕ)
      → s.lent ≡ before ++ (res ∷ after)
      → t
        ≡ notify
            (put_resource res s.pool).0
            (record s { pool = (put_resource res s.pool).1; lent = before ++ after })
      → Step s t
  -- A woken thread finds a resource, or waits again.
  resumes :
      (res : ℕ) (rest : List ℕ)
      → 0 < s.woken
      → s.pool.pool ≡ res ∷ rest
      → t
        ≡ record s { pool = (end_wait res rest s.pool).1; lent = res ∷ s.lent; woken = s.woken - 1 }
      → Step s t
  sleeps :
      0 < s.woken
      → s.pool.pool ≡ []
      → t ≡ record s { asleep = s.asleep + 1; woken = s.woken - 1 }
      → Step s t
  -- A wait may end without a notification.
  wakes : 0 < s.asleep → t ≡ record s { asleep = s.asleep - 1; woken = s.woken + 1 } → Step s t

pub data Reach (s : System) : System → Type 0 where
  here : Reach s s
  next : {t u : System} → Reach s t → Step t u → Reach s u

-- Whether a step gives a resource back, or ends a wait with one.
abbrev pub serving : {s t : System} → Step s t → Bool
serving (gets res p e h) = false
serving (waits n e h) = false
serving (tries res p e h) = false
serving (puts before res after e h) = true
serving (resumes res rest w e h) = true
serving (sleeps w e h) = false
serving (wakes w h) = false

-- Such steps only: no thread comes, and none wakes without a notification.
pub data Serve (s : System) : System → Type 0 where
  stays : Serve s s
  serves : {t u : System} → Serve s t → (step : Step t u) → serving step ≡ true → Serve s u

pub Serve-trans : {s t u : System} → Serve s t → Serve t u → Serve s u
Serve-trans a stays = a
Serve-trans a (serves b step h) = serves (Serve-trans a b) step h
