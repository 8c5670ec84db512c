-- ===== src/Http/ChunkedReader.antt =====
-- src/http/chunked_reader.cpp. The loops have fuel, without which they have not ended: a parent may
-- hand out digits for ever, or nothing.

pub mod Size
use cppnet.Prelude.{
  List, Option, [], if◌then◌else◌, leb, length, ltb, min, none, some, suc, zero, ℕ, ◌%◌, ◌&&◌, ◌*◌,
  ◌++◌, ◌+◌, ◌-◌, ◌==◌, ◌^◌, ◌∷◌, not,
}
use cppnet.Io.{Reader, ReadResult, ErrorCondition, system}
use cppnet.Io.BufferedReader.{failed}

-- The class `chunked_reader`. The state of the parent's object lies in `S`.
pub record ChunkedReader (S : Type 0) : Type 0 where
  pub parent : S
  pub current_chunk_size : ℕ

-- `std::errc::illegal_byte_sequence`
abbrev pub illegal_byte_sequence : Option ErrorCondition
illegal_byte_sequence = some (system 84)

-- The element of an array that a read fills from its front, which holds `old` if it does not reach.
abbrev filled : List ℕ → ℕ → ℕ
filled [] old = old
filled (b ∷ bs) old = b

abbrev rest_of : List ℕ → List ℕ
rest_of [] = []
rest_of (b ∷ bs) = bs

module _ {S : Type 0} (rd : Reader S) where
  -- The loop of `get_next_chunk_size`, with the size so far; the error, and the new state.
  next_size_loop : ℕ → ℕ → S → Option (Option ErrorCondition × ChunkedReader S)
  next_size_loop zero size s = none
  next_size_loop (suc fuel) size s =
      let r = rd.read_some 1 s in
      let next = filled r.0.bytes 0 in
      let rest = next_size_loop fuel ((size * 10 + (next - b'0')) % 2 ^ 64) r.1 in
      let r' = rd.read_some 1 r.1 in
      let next' = filled r'.0.bytes next in
      if failed r.0.err
      then some (r.0.err, record { parent = r.1; current_chunk_size = size })
      else if leb b'0' next && leb next b'9'
      then rest
      else if next == 13
      then (if failed r'.0.err
          then some (r'.0.err, record { parent = r'.1; current_chunk_size = size })
          else if next' == 10
          then some (none, record { parent = r'.1; current_chunk_size = size })
          else some (illegal_byte_sequence, record { parent = r'.1; current_chunk_size = size }))
      else some (illegal_byte_sequence, record { parent = r.1; current_chunk_size = size })

  pub get_next_chunk_size : ℕ → ChunkedReader S → Option (Option ErrorCondition × ChunkedReader S)
  unfolding next_size_loop
  get_next_chunk_size fuel s = next_size_loop fuel 0 s.parent

  -- The array of two chars starts with zeros.
  pub validate_end_of_chunk : ChunkedReader S → Option ErrorCondition × ChunkedReader S
  validate_end_of_chunk s =
      let r = rd.read_some 2 s.parent in
      let c₀ = filled r.0.bytes 0 in
      let c₁ = filled (rest_of r.0.bytes) 0 in
      let s' : ChunkedReader S = record {
        parent = r.1;
        current_chunk_size = s.current_chunk_size;
      } in
      if failed r.0.err
      then (r.0.err, s')
      else if not (c₀ == 13) && not (c₁ == 10)
      then (illegal_byte_sequence, s')
      else (none, s')

  -- The plain read of the current chunk, for a span of `n` bytes of which `got` holds the first.
  pub read_chunk : ℕ → List ℕ → ChunkedReader S → ReadResult × ChunkedReader S
  read_chunk n got s =
      let amount_to_read = min (n - length got) s.current_chunk_size in
      let r = rd.read_some amount_to_read s.parent in
      (
        record { bytes = got ++ r.0.bytes; err = r.0.err },
        record {
          parent = r.1;
          current_chunk_size = (2 ^ 64 + s.current_chunk_size - length r.0.bytes) % 2 ^ 64;
        },
      )

  -- A round of the loop of `read` from its plain read on: where it does not return, `again` runs.
  chunk_round :
      ℕ
      → List ℕ
      → ChunkedReader S
      → (List ℕ → ChunkedReader S → Option (ReadResult × ChunkedReader S))
      → Option (ReadResult × ChunkedReader S)
  unfolding read_chunk validate_end_of_chunk
  chunk_round n got s again =
      let p = read_chunk n got s in
      let v = validate_end_of_chunk p.1 in
      if failed p.0.err
      then some p
      else if p.1.current_chunk_size == 0
      then (if failed v.0
          then some (record { bytes = p.0.bytes; err = v.0 }, v.1)
          else again p.0.bytes v.1)
      else again p.0.bytes p.1

  -- The loop of `read`.
  chunks_loop : ℕ → ℕ → List ℕ → ChunkedReader S → Option (ReadResult × ChunkedReader S)
  unfolding get_next_chunk_size chunk_round validate_end_of_chunk
  chunks_loop zero n got s =
      if ltb (length got) n then none else some (record { bytes = got; err = none }, s)
  chunks_loop (suc fuel) n got s =
      let again = chunks_loop fuel n in
      let ended : Option (ReadResult × ChunkedReader S) =
        some (record { bytes = got; err = none }, s) in
      let sized : Option (ReadResult × ChunkedReader S) = elim (get_next_chunk_size (suc fuel) s) [
        | none ↦ none
        | some z ↦
            let v = validate_end_of_chunk z.1 in
            if failed z.0
            then some (record { bytes = got; err = z.0 }, z.1)
            else if z.1.current_chunk_size == 0
            then some (record { bytes = got; err = v.0 }, v.1)
            else chunk_round n got z.1 again
      ] in
      if ltb (length got) n
      then (if s.current_chunk_size == 0 then sized else chunk_round n got s again)
      else ended

  unfoldable pub chunked_read : ℕ → ℕ → ChunkedReader S → Option (ReadResult × ChunkedReader S)
  unfolding chunks_loop
  chunked_read fuel n s = chunks_loop fuel n [] s
