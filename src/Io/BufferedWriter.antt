-- ===== src/Io/BufferedWriter.antt =====
-- src/io/buffered_writer.cpp: `write`, `flush_available` and `flush`.
pub mod Append
pub mod Write
pub mod Flush
use cppnet.Prelude.{
  List, Option, [], drop, if◌then◌else◌, length, ltb, min, none, some, suc, take, zero, ℕ, ◌++◌,
  ◌+◌, ◌-◌, ◌==◌,
}
use cppnet.Prelude.Memory.{◌>>=◌, Run, done}
use cppnet.Io.{Writer, Result}
use cppnet.Io.BufferedReader.{shift_back, failed}

-- The class `buffered_writer`. `buf` never grows beyond `capacity`, which stays what it is.
pub record BufferedWriter (S : Type 0) : Type 0 where
  pub impl : S
  pub buf : List ℕ
  pub capacity : ℕ

module _ {S : Type 0} (wr : Writer S) where
  -- `flush_available`. A short write leaves the rest in the buffer, moved to its front.
  pub flush_available :
      (List ℕ → ℕ → Run (List ℕ)) → BufferedWriter S → Run (Result × BufferedWriter S)
  flush_available overlapping s =
      let r = wr.write_some s.buf s.impl in
      if ltb r.0.count (length s.buf)
      then (do
        rest ← shift_back overlapping s.buf r.0.count
        done (r.0, record { impl = r.1; buf = rest; capacity = s.capacity }))
      else done (r.0, record { impl = r.1; buf = []; capacity = s.capacity })

  -- The loop that bypasses the buffer, with the first `total` bytes of the data written. It ends
  -- with an error, or with at most `capacity` bytes left. Without fuel it has not ended.
  pub write_past : ℕ → ℕ → List ℕ → ℕ → S → Option (Result × S)
  write_past zero capacity bytes total i =
      if ltb capacity (length bytes - total)
      then none
      else some (record { count = total; err = none }, i)
  write_past (suc fuel) capacity bytes total i =
      let r = wr.write_some (take capacity (drop total bytes)) i in
      let rest = write_past fuel capacity bytes (total + r.0.count) r.1 in
      if ltb capacity (length bytes - total)
      then (if failed r.0.err
          then some (record { count = total + r.0.count; err = r.0.err }, r.1)
          else rest)
      else some (record { count = total; err = none }, i)

  -- What `write` does behind that loop. `buf.resize(leftover)` and the copy leave the last bytes of
  -- the data in the buffer, and nothing else.
  pub write_end : List ℕ → BufferedWriter S → Result × S → Result × BufferedWriter S
  write_end bytes s r =
      if failed r.0.err
      then (r.0, record { impl = r.1; buf = s.buf; capacity = s.capacity })
      else if ltb 0 (length bytes - r.0.count)
      then (
        record { count = length bytes; err = none },
        record { impl = r.1; buf = drop r.0.count bytes; capacity = s.capacity },
      )
      else (r.0, record { impl = r.1; buf = s.buf; capacity = s.capacity })

  -- What `write` does behind the flush, with the first `total` bytes in the buffer or below.
  pub write_rest : List ℕ → ℕ → Result × BufferedWriter S → Option (Result × BufferedWriter S)
  unfolding write_past write_end
  write_rest bytes total f =
      let past : Option (Result × BufferedWriter S) =
        elim (write_past (suc (length bytes)) f.1.capacity bytes total f.1.impl) [
          | none ↦ none
          | some r ↦ some (write_end bytes f.1 r)
        ] in
      if failed f.0.err then some f else past

  pub buffered_write :
      (List ℕ → ℕ → Run (List ℕ))
      → List ℕ
      → BufferedWriter S
      → Run (Option (Result × BufferedWriter S))
  unfolding flush_available write_rest
  buffered_write overlapping bytes s =
      let total =
        if ltb (length s.buf) s.capacity
        then min (s.capacity - length s.buf) (length bytes)
        else 0 in
      let s' : BufferedWriter S = record {
        impl = s.impl;
        buf = s.buf ++ take total bytes;
        capacity = s.capacity;
      } in
      if length bytes == 0
      then done (some (record { count = 0; err = none }, s))
      else if total == length bytes
      then done (some (record { count = length bytes; err = none }, s'))
      else if length s'.buf == s'.capacity
      then (do f ← flush_available overlapping s'; done (write_rest bytes total f))
      else done (write_rest bytes total (record { count = 0; err = none }, s'))

  -- `flush`, whose loop has written the first `total` bytes of the buffer.
  pub flush_loop : ℕ → ℕ → BufferedWriter S → Option (Result × BufferedWriter S)
  flush_loop zero total s =
      if ltb total (length s.buf)
      then none
      else some (
        record { count = total; err = none },
        record { impl = s.impl; buf = []; capacity = s.capacity },
      )
  flush_loop (suc fuel) total s =
      let r = wr.write_some (drop total s.buf) s.impl in
      let s' : BufferedWriter S = record { impl = r.1; buf = s.buf; capacity = s.capacity } in
      let rest = flush_loop fuel (total + r.0.count) s' in
      if ltb total (length s.buf)
      then (if failed r.0.err
          then some (record { count = total + r.0.count; err = r.0.err }, s')
          else rest)
      else some (
        record { count = total; err = none },
        record { impl = s.impl; buf = []; capacity = s.capacity },
      )

  pub flush : BufferedWriter S → Option (Result × BufferedWriter S)
  unfolding flush_loop
  flush s = flush_loop (suc (length s.buf)) 0 s
