-- ===== src/Http/ChunkedWriter.antt =====
-- src/http/chunked_writer.cpp.
pub mod Chunk
use cppnet.Prelude.{
  List, Option, [], drop, if◌then◌else◌, length, ltb, min, none, some, suc, take, zero, ℕ, ◌*◌, ◌+◌,
  ◌∷◌,
}
use cppnet.Prelude.Memory.{Run, done, fault}
use cppnet.Prelude.Chars.{decimal_text}
use cppnet.Io.{Writer, Result}
use cppnet.Io.BufferedReader.{failed}

-- `max_decimal_for_length_digits`, with `n` rounds left.
abbrev pub max_decimal : ℕ → ℕ → ℕ
max_decimal zero total = total
max_decimal (suc n) total = max_decimal n (total * 10 + 9)

-- The buffer for a chunk's size has eight chars.
abbrev pub max_chunk_size : ℕ
max_chunk_size = max_decimal 8 0

abbrev pub crlf : List ℕ
crlf = 13 ∷ 10 ∷ []

module _ {S : Type 0} (wr : Writer S) where
  -- The loop of `write`, with the first `total` bytes written. The subspan of the data has to lie
  -- within it. Without fuel the loop has not ended.
  pub chunk_loop : ℕ → List ℕ → ℕ → S → Run (Option (Result × S))
  chunk_loop zero bytes total s =
      if ltb total (length bytes)
      then done none
      else done (some (record { count = total; err = none }, s))
  chunk_loop (suc fuel) bytes total s =
      let amount = min max_chunk_size (length bytes) in
      let r₁ = wr.write_some (decimal_text 8 amount) s in
      let r₂ = wr.write_some crlf r₁.1 in
      let r₃ = wr.write_some (take amount (drop total bytes)) r₂.1 in
      let total' = total + r₃.0.count in
      let r₄ = wr.write_some crlf r₃.1 in
      let rest = chunk_loop fuel bytes total' r₄.1 in
      if ltb total (length bytes)
      then (if failed r₁.0.err
          then done (some (record { count = total; err = r₁.0.err }, r₁.1))
          else if failed r₂.0.err
          then done (some (record { count = total; err = r₂.0.err }, r₂.1))
          else if ltb (length bytes) (total + amount)
          then fault
          else if failed r₃.0.err
          then done (some (record { count = total'; err = r₃.0.err }, r₃.1))
          else if failed r₄.0.err
          then done (some (record { count = total'; err = r₄.0.err }, r₄.1))
          else rest)
      else done (some (record { count = total; err = none }, s))

  pub chunked_write : List ℕ → S → Run (Option (Result × S))
  unfolding chunk_loop
  chunked_write bytes s = chunk_loop (suc (length bytes)) bytes 0 s
