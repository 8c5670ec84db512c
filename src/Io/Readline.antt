-- ===== src/Io/Readline.antt =====
-- `readline` of src/io/util.cpp, over a buffered reader. The growth of the string's capacity is left
-- out.
pub mod Lines
use cppnet.Prelude.{
  ℕ, List, Bool, Option, [], drop, if◌then◌else◌, leb, length, none, some, suc, take, zero, ◌&&◌,
  ◌++◌, ◌-◌, ◌∷◌, ◌==◌, ◌≡◌, ◌≤◌,
}
use cppnet.Prelude.Memory.{Run, done, ◌>>=◌}
use cppnet.Prelude.Strings.{same_string, Misses}
use cppnet.Io.{Reader, ErrorCondition, status, closed}
use cppnet.Io.BufferedReader.{BufferedReader, peek, buffered_read}

-- A `readline_result`.
pub data LineResult : Type 0 where
  line : List ℕ → LineResult
  line_error : ErrorCondition → LineResult

abbrev pub ends_with : List ℕ → List ℕ → Bool
ends_with str end =
    leb (length end) (length str) && same_string (drop (length str - length end) str) end

abbrev pub without_end : List ℕ → List ℕ → List ℕ
without_end text end = if ends_with text end then take (length text - length end) text else text

-- What a round does with the byte that it has read behind `text`, unless it goes on.
abbrev pub error_of : Option ErrorCondition → ErrorCondition
error_of (some e) = e
error_of none = status closed

module _ {S : Type 0} (rd : Reader S) (overlapping : List ℕ → ℕ → Run (List ℕ)) (end : List ℕ) where
  abbrev pub Lined : Type 0
  Lined = Run (Option (LineResult × BufferedReader S))

  -- The read of a round, and what it does with its result: `again` is the loop.
  read_byte : List ℕ → (List ℕ → BufferedReader S → Lined) → BufferedReader S → Lined
  read_byte text again s = do
    o ← buffered_read rd overlapping 1 s
    elim o [
      | none ↦ done none
      | some (r, s') ↦ elim r.err [
        | some e ↦ done (some (line_error e, s'))
        | none ↦ elim r.bytes [
          | [] ↦ done (some (line_error (status closed), s'))
          | b ∷ bs ↦ again (text ++ (b ∷ [])) s'
        ]
      ]
    ]

  -- The loop, with the line so far. Without fuel it has not ended.
  readline_loop : ℕ → List ℕ → BufferedReader S → Lined
  unfolding read_byte
  readline_loop zero text s =
      if ends_with text end then done (some (line (without_end text end), s)) else done none
  readline_loop (suc fuel) text s =
      let p = peek rd s in
      let next : Lined = elim p.0 [
        | none ↦ done (some (line (without_end text end), p.1))
        | some c ↦ read_byte text (readline_loop fuel) p.1
      ] in
      if ends_with text end then done (some (line (without_end text end), s)) else next

  pub readline : ℕ → BufferedReader S → Lined
  unfolding readline_loop
  readline fuel s = readline_loop fuel [] s

module _ {S : Type 0} where
  -- What a source of lines promises: a line of at most `limit` bytes without a newline, up to its
  -- end, is handed out, and what stands behind its end is left.
  abbrev pub IsLines :
      (S → Run (Option (LineResult × S))) → (S → Type 0) → (S → List ℕ) → ℕ → Type 0
  IsLines next_line Valid content limit =
      (text rest : List ℕ) (s : S)
      → Valid s
      → Misses (λ c. c == 10) text
      → length text ≤ limit
      → content s ≡ text ++ (13 ∷ 10 ∷ rest)
      → (s' : S) × Valid s' × (content s' ≡ rest) × (next_line s ≡ done (some (line text, s')))
