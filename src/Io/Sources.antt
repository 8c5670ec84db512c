-- ===== src/Io/Sources.antt =====
-- include/io/string_reader.hpp, src/io/limit_reader.cpp and src/io/buffer.cpp.
pub mod Deliver
use cppnet.Prelude.{
  List, [], drop, if◌then◌else◌, leb, length, ltb, min, none, replicate, some, take, ℕ, ◌++◌, ◌+◌,
  ◌-◌, ◌==◌,
}
use cppnet.Io.{Reader, ReadResult, Result, status, closed}

-- The class `string_reader`, over bytes.
pub record StringReader : Type 0 where
  pub view : List ℕ
  pub idx : ℕ

unfoldable pub string_read : ℕ → StringReader → ReadResult × StringReader
string_read n s =
    if s.idx == length s.view
    then (record { bytes = []; err = none }, s)
    else (let amount = min (length s.view - s.idx) n in
        (
          record { bytes = take amount (drop s.idx s.view); err = none },
          record { view = s.view; idx = s.idx + amount },
        ))

-- The class `limit_reader`. The state of the parent's object lies in `S`.
pub record LimitReader (S : Type 0) : Type 0 where
  pub parent : S
  pub limit : ℕ
  pub progress : ℕ

module _ {S : Type 0} where
  pub limit_read : Reader S → ℕ → LimitReader S → ReadResult × LimitReader S
  limit_read rd n s =
      if leb s.limit s.progress
      then (record { bytes = []; err = some (status closed) }, s)
      else (let r = rd.read_some (min n (s.limit - s.progress)) s.parent in
          (r.0, record { parent = r.1; limit = s.limit; progress = s.progress + length r.0.bytes }))

-- The class `buffer`.
pub record Buffer : Type 0 where
  pub content : List ℕ
  pub write_at : ℕ
  pub read_at : ℕ

-- `std::copy(data.begin(), data.end(), &content[at])` into a vector with room for it.
abbrev copy_into : List ℕ → ℕ → List ℕ → List ℕ
copy_into content at bytes = take at content ++ (bytes ++ drop (at + length bytes) content)

abbrev resize : ℕ → List ℕ → List ℕ
resize n xs = take n xs ++ replicate (n - length xs) 0

-- `write_at` stays what it is.
pub buffer_write : List ℕ → Buffer → Result × Buffer
buffer_write bytes s =
    let room = length s.content - s.write_at in
    let content =
      if ltb room (length bytes) then resize (room + length bytes) s.content else s.content in
    (
      record { count = length bytes; err = none },
      record {
        content = copy_into content s.write_at bytes;
        write_at = s.write_at;
        read_at = s.read_at;
      },
    )

pub buffer_read : ℕ → Buffer → ReadResult × Buffer
buffer_read n s =
    let amount = min n (length s.content - s.read_at) in
    (
      record {
        bytes = take amount (drop s.read_at s.content);
        err = if leb (length s.content) (s.read_at + amount) then some (status closed) else none;
      },
      record { content = s.content; write_at = s.write_at; read_at = s.read_at + amount },
    )
