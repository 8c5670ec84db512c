-- ===== src/Util/RingBuffer.antt =====
-- include/util/ring_buffer.hpp: a ring over an array of fixed size that drops its oldest element.
pub mod Window
pub mod Refine
pub mod Runs
use cppnet.Prelude.{ℕ, Bool, List, if◌then◌else◌, length, ltb, replicate, ◌%◌, ◌+◌, ◌-◌, ◌==◌}
use cppnet.Prelude.Memory.{Run, ◌>>=◌, read, write, done}

-- The template parameter `N` is the length of `values`.
pub record RingBuffer {ℓ} (T : Type ℓ) : Type ℓ where
  pub values : List T
  pub begin : ℕ
  pub current_size : ℕ

module _ {ℓ} {T : Type ℓ} where
  abbrev pub capacity : RingBuffer T → ℕ
  capacity r = length r.values

  pub empty : RingBuffer T → Bool
  empty r = r.current_size == 0

  pub size : RingBuffer T → ℕ
  size r = r.current_size

  -- `values{}`: `N` copies of `T{}`.
  unfoldable pub init : ℕ → T → RingBuffer T
  init n default = record { values = replicate n default; begin = 0; current_size = 0 }

  pub push : RingBuffer T → T → Run (RingBuffer T)
  push r value =
      let idx = (r.begin + r.current_size) % capacity r in
      do
        values' ← write r.values idx value
        done (
            if ltb (capacity r) (r.current_size + 1)
            then record r { values = values'; begin = (r.begin + 1) % capacity r }
            else record r { values = values'; current_size = r.current_size + 1 })

  -- The element and the new ring. On an empty ring the element is a stale one.
  pub pop : RingBuffer T → Run (T × RingBuffer T)
  pop r = do
    value ← read r.values r.begin
    let begin' = (r.begin + 1) % capacity r
    done (
      value,
      record r {
        begin = begin';
        current_size = if r.current_size == 0 then r.current_size else r.current_size - 1;
      },
    )

  -- `operator[]`
  pub index : RingBuffer T → ℕ → Run T
  index r i = read r.values ((r.begin + i) % capacity r)
