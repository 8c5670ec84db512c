-- ===== src/Tests/Shared.antt =====
-- A pool of one resource with a thread in a wait, and a cache of one entry.

use cppnet.Prelude.{ℕ, [], ◌∷◌, ◌≡◌, arith, refl, none, some, true, false}
use cppnet.Prelude.Memory.{done, fault}
use cppnet.Util.ResourcePool.{Pool, new_pool, get_resource, start_wait}
use cppnet.Util.ResourcePool.Threads.{Serve, System, start, gets, waits, Reach, here, next}
use cppnet.Util.ResourcePool.Invariant.{IsSound, Reach-IsSound}
use cppnet.Util.ResourcePool.Owners.{IsOwned, Reach-IsOwned}
use cppnet.Util.ResourcePool.Progress.{waiting, Reach-Serve}
use cppnet.Util.Cache.{Cache, set_entry, get_entry, erase, contains, get_or_set}
use cppnet.Util.Cache.Valid.{IsValid}
use cppnet.Util.Cache.Valid.Set.{set_entry-IsValid}
use cppnet.Util.Cache.Valid.Erase.{erase-IsValid, get_or_set-missing}

abbrev lent_pool : Pool
lent_pool = record {
  target_size = 1;
  max_size = 1;
  pool = [];
  num_waiting = 0;
  num_borrowed = 1;
  made = 1;
}

abbrev lent_out : System
lent_out = record { pool = lent_pool; lent = 0 ∷ []; asleep = 0; woken = 0 }

abbrev one_waits : System
one_waits = record {
  pool = record lent_pool { num_waiting = 1 };
  lent = 0 ∷ [];
  asleep = 1;
  woken = 0;
}

one_waits-Reach : Reach (start 1 1) one_waits
unfolding start new_pool get_resource start_wait
one_waits-Reach = next (next here (gets 0 lent_pool refl refl)) (waits (omega arith) refl refl)

Reach-IsSound_example : IsSound 1 one_waits
Reach-IsSound_example = Reach-IsSound 1 (omega arith) 1 one_waits one_waits-Reach

Reach-Serve_example : (t : System) × Serve one_waits t × (waiting t ≡ 0)
Reach-Serve_example = Reach-Serve 1 (omega arith) (omega arith) 1 one_waits one_waits-Reach

Reach-IsOwned_example : IsOwned one_waits 0
Reach-IsOwned_example = Reach-IsOwned 1 1 one_waits 0 one_waits-Reach

abbrev holding_one : Cache ℕ
holding_one = record {
  capacity = 1;
  lookup = (7, 0) ∷ [];
  entries = record { id = 0; key = 7; val = 70; visited = true } ∷ [];
  hand = none;
  next_id = 1;
  locked = false;
  before_begin = done none;
}

holding_one-IsValid : IsValid holding_one
holding_one-IsValid = record {
  order = (omega arith, refl, tt);
  found = refl;
  aims = tt;
  fits = omega arith;
}

set_entry-IsValid_example :
    (t u : Cache ℕ) × (set_entry 8 80 holding_one ≡ done (some t))
    × IsValid t
    × (get_entry 8 t ≡ done (some 80, u))
set_entry-IsValid_example =
    set_entry-IsValid 8 80 holding_one holding_one-IsValid refl refl (omega arith)

erase-IsValid_example :
    (t : Cache ℕ) × (erase 7 holding_one ≡ done (contains 7 holding_one, t))
    × IsValid t
    × (contains 7 t ≡ false)
erase-IsValid_example = erase-IsValid 7 holding_one holding_one-IsValid refl

holding_one-without : contains 9 holding_one ≡ false
unfolding contains
holding_one-without = refl

get_or_set-missing_example : get_or_set 9 (λ k. k) holding_one ≡ fault
get_or_set-missing_example = get_or_set-missing 9 (λ k. k) holding_one holding_one-without
