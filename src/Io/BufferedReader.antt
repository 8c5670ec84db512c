-- ===== src/Io/BufferedReader.antt =====
-- src/io/buffered_reader.cpp: `read`, `fill`, `peek` and the two `reset`.
pub mod Deliver
pub mod Read
pub mod Byte
use cppnet.Prelude.{
  List, Option, drop, if◌then◌else◌, leb, length, ltb, none, some, suc, zero, ℕ, ◌++◌, ◌-◌, ◌==◌,
  Bool, [], false, get_elem?, min, take, true, ◌∷◌,
}
use cppnet.Prelude.Memory.{Run, done, ◌>>=◌}
use cppnet.Io.{ErrorCondition, Reader, ReadResult}

-- The class `buffered_reader`. `buf` never grows beyond `capacity`, which stays what it is.
pub record BufferedReader (S : Type 0) : Type 0 where
  pub impl : S
  pub buf : List ℕ
  pub capacity : ℕ
  pub err : Option ErrorCondition

-- `std::copy_backward(begin + n, end, begin + (size - n))` and the `resize` to `size - n`. The copy
-- asks for a destination that does not end within its source, so for at most `2 * n` bytes. What it
-- does with more of them is up to the library, and is the parameter.
unfoldable pub shift_back : (List ℕ → ℕ → Run (List ℕ)) → List ℕ → ℕ → Run (List ℕ)
shift_back overlapping buf n =
    if ltb n (length buf - n) then overlapping buf n else done (drop n buf)

abbrev pub failed : Option ErrorCondition → Bool
failed none = false
failed (some e) = true

module _ {S : Type 0} (rd : Reader S) where
  -- `fill`
  pub fill : BufferedReader S → BufferedReader S
  fill s =
      if length s.buf == s.capacity
      then s
      else (let r = rd.read_some (s.capacity - length s.buf) s.impl in
          record { impl = r.1; buf = s.buf ++ r.0.bytes; capacity = s.capacity; err = r.0.err })

  -- The loop of `read` past the buffer, for a span of `n` bytes of which `got` holds the first.
  -- Without fuel it has not ended. It ends with an error, or with at most `capacity` bytes left.
  pub read_past : ℕ → ℕ → ℕ → List ℕ → S → Option (ReadResult × S)
  read_past zero capacity n got i =
      if ltb capacity (n - length got) then none else some (record { bytes = got; err = none }, i)
  read_past (suc fuel) capacity n got i =
      let r = rd.read_some capacity i in
      let rest = read_past fuel capacity n (got ++ r.0.bytes) r.1 in
      if ltb capacity (n - length got)
      then (if failed r.0.err
          then some (record { bytes = got ++ r.0.bytes; err = r.0.err }, r.1)
          else rest)
      else some (record { bytes = got; err = none }, i)

  -- The partial read behind the loop, when the buffer is empty and `got` is read.
  pub read_rest : ℕ → List ℕ → BufferedReader S → ReadResult × BufferedReader S
  unfolding fill
  read_rest n got s =
      let leftover = n - length got in
      let filled = fill s in
      let available = min leftover (length filled.buf) in
      if ltb 0 leftover
      then (
        record {
          bytes = got ++ take available filled.buf;
          err = if ltb available leftover then filled.err else none;
        },
        record {
          impl = filled.impl;
          buf = drop available filled.buf;
          capacity = filled.capacity;
          err = filled.err;
        },
      )
      else (record { bytes = got; err = none }, s)

  pub read_end : ℕ → BufferedReader S → ReadResult × S → ReadResult × BufferedReader S
  unfolding read_rest
  read_end n s r =
      let s' : BufferedReader S = record {
        impl = r.1;
        buf = [];
        capacity = s.capacity;
        err = s.err;
      } in
      if failed r.0.err then (r.0, s') else read_rest n r.0.bytes s'

  -- `read` into a span of `n` bytes.
  pub buffered_read :
      (List ℕ → ℕ → Run (List ℕ))
      → ℕ
      → BufferedReader S
      → Run (Option (ReadResult × BufferedReader S))
  unfolding shift_back read_past
  buffered_read overlapping n s =
      if n == 0
      then done (some (record { bytes = []; err = none }, s))
      else if leb n (length s.buf)
      then (do
        rest ← shift_back overlapping s.buf n
        done (
            some (
              record { bytes = take n s.buf; err = none },
              record { impl = s.impl; buf = rest; capacity = s.capacity; err = s.err },
            )))
      else done (elim (read_past (suc n) s.capacity n s.buf s.impl) [
        | none ↦ none
        | some r ↦ some (read_end n s r)
      ])

  -- `peek`: the next byte, if there is one.
  pub peek : BufferedReader S → Option ℕ × BufferedReader S
  unfolding fill
  peek s =
      let filled = fill s in
      elim s.buf [ c ∷ rest ↦ (some c, s) | [] ↦ (get_elem? filled.buf 0, filled) ]

  -- `reset()`, and `reset(other)` with an `other` that is not null.
  pub reset : BufferedReader S → BufferedReader S
  reset s = record { impl = s.impl; buf = []; capacity = s.capacity; err = s.err }

  pub reset_to : S → BufferedReader S → BufferedReader S
  reset_to other s = record { impl = other; buf = []; capacity = s.capacity; err = none }
