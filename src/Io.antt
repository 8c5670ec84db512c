-- ===== src/Io.antt =====
-- include/io/io.hpp, reader.hpp and writer.hpp: results, and the two interfaces.
pub mod Sources
pub mod StringWriter
pub mod BufferedReader
pub mod BufferedWriter
pub mod Readline
pub mod WriteAll
pub mod Counted
use cppnet.Prelude.{List, Option, length, none, ℕ, ◌++◌, ◌<◌, ◌≡◌, ◌≤◌, take}

pub data StatusCondition : Type 0 where
  closed : StatusCondition
  timed_out : StatusCondition
  error : StatusCondition

-- `std::error_condition`: one of the two categories that the code uses.
pub data ErrorCondition : Type 0 where
  status : StatusCondition → ErrorCondition
  system : ℕ → ErrorCondition

-- What `read` leaves in the front of its span, whose length is `count`, and `err`.
pub record ReadResult : Type 0 where
  pub bytes : List ℕ
  pub err : Option ErrorCondition

-- The class `reader`, whose objects have states in `S`: `read` on a span of a size.
pub record Reader (S : Type 0) : Type 0 where
  pub read_some : ℕ → S → ReadResult × S

-- The struct `result`.
pub record Result : Type 0 where
  pub count : ℕ
  pub err : Option ErrorCondition

-- The class `writer`.
pub record Writer (S : Type 0) : Type 0 where
  pub write_some : List ℕ → S → Result × S

module _ {S : Type 0} where
  -- What a reader promises: it hands out what its object holds, in order and once, and no more
  -- than the span takes.
  pub record IsSource (rd : Reader S) (IsValid : S → Type 0) (content : S → List ℕ) : Type 0 where
    pub delivers :
        (n : ℕ) (s : S)
        → IsValid s
        → (rd.read_some n s).0.bytes ++ content (rd.read_some n s).1 ≡ content s
    pub fits : (n : ℕ) (s : S) → IsValid s → length (rd.read_some n s).0.bytes ≤ n
    pub keeps : (n : ℕ) (s : S) → IsValid s → IsValid (rd.read_some n s).1

  -- A reader that gives a byte or an error, to a span that is not empty.
  abbrev pub Progresses : Reader S → (S → Type 0) → Type 0
  Progresses rd IsValid =
      (n : ℕ) (s : S)
      → IsValid s
      → 0 < n
      → (rd.read_some n s).0.err ≡ none
      → 0 < length (rd.read_some n s).0.bytes

  -- A reader that gives a byte as long as it holds one, to a span that is not empty.
  abbrev pub Feeds : Reader S → (S → Type 0) → (S → List ℕ) → Type 0
  Feeds rd IsValid content =
      (n : ℕ) (s : S)
      → IsValid s
      → 0 < n
      → 0 < length (content s)
      → 0 < length (rd.read_some n s).0.bytes

  -- What a writer promises: it appends the part of the data that it counts, which is all of it
  -- unless it reports an error.
  pub record IsSink (wr : Writer S) (written : S → List ℕ) : Type 0 where
    pub appends :
        (bytes : List ℕ) (s : S)
        → written (wr.write_some bytes s).1
          ≡ written s ++ take (wr.write_some bytes s).0.count bytes
    pub counts : (bytes : List ℕ) (s : S) → (wr.write_some bytes s).0.count ≤ length bytes
    pub all_or_error :
        (bytes : List ℕ) (s : S)
        → (wr.write_some bytes s).0.err ≡ none
        → (wr.write_some bytes s).0.count ≡ length bytes
