-- ===== src/Util/ResourcePool.antt =====
-- include/util/resource_pool.hpp. A resource is the number of the call of `make` that made it. Each
-- operation runs under the lock of the pool; a wait gives it up.
pub mod Threads
pub mod Invariant
pub mod Owners
pub mod Progress
use cppnet.Prelude.{
  ℕ, List, Bool, Option, [], false, if◌then◌else◌, leb, length, ltb, none, some, true, ◌%◌, ◌&&◌,
  ◌+◌, ◌-◌, ◌==◌, ◌^◌, ◌∷◌,
}

-- The class `resource_pool`, with the back of its vector first, and the number of calls of `make`.
pub record Pool : Type 0 where
  pub target_size : ℕ
  pub max_size : ℕ
  pub pool : List ℕ
  pub num_waiting : ℕ
  pub num_borrowed : ℕ
  pub made : ℕ

unfoldable pub new_pool : ℕ → ℕ → Pool
new_pool target_size max_size = record {
  target_size = target_size;
  max_size = max_size;
  pool = [];
  num_waiting = 0;
  num_borrowed = 0;
  made = 0;
}

-- The back of the pool, handed out.
abbrev pub pop_back : ℕ → List ℕ → Pool → ℕ × Pool
pop_back res rest p = (res, record p { pool = rest; num_borrowed = (p.num_borrowed + 1) % 2 ^ 64 })

-- `get` up to where it has to wait, which is `none`.
unfoldable pub get_resource : Pool → Option (ℕ × Pool)
get_resource p = elim p.pool [
  | [] ↦
      if ltb p.num_borrowed p.max_size
      then some
          (p.made, record p { num_borrowed = (p.num_borrowed + 1) % 2 ^ 64; made = p.made + 1 })
      else none
  | res ∷ rest ↦ some (pop_back res rest p)
]

-- What `get` does where it waits, and behind its wait, when the pool is not empty.
unfoldable pub start_wait : Pool → Pool
start_wait p = record p { num_waiting = (p.num_waiting + 1) % 2 ^ 64 }

unfoldable pub end_wait : ℕ → List ℕ → Pool → ℕ × Pool
end_wait res rest p =
    pop_back res rest (record p { num_waiting = (2 ^ 64 + p.num_waiting - 1) % 2 ^ 64 })

unfoldable pub try_get : Pool → Option (ℕ × Pool)
try_get p = elim p.pool [ [] ↦ none | res ∷ rest ↦ some (pop_back res rest p) ]

-- Whether a waiting thread is notified, and the pool.
unfoldable pub put_resource : ℕ → Pool → Bool × Pool
put_resource res p =
    let returned = record p { num_borrowed = (2 ^ 64 + p.num_borrowed - 1) % 2 ^ 64 } in
    if leb p.target_size (length p.pool) && p.num_waiting == 0
    then (false, returned)
    else (true, record returned { pool = res ∷ p.pool })

abbrev pub available_resources : Pool → ℕ
available_resources p = length p.pool
