-- ===== src/Http/Http11/Fields.antt =====
-- `parse_headers` and `write_headers` of src/http/http11.cpp.
pub mod RoundTrip
pub mod Write
use cppnet.Prelude.{
  ℕ, List, Option, [], codes, drop, if◌then◌else◌, length, ltb, none, some, suc, take, zero, ◌++◌,
  ◌+◌, ◌==◌, ◌∷◌,
}
use cppnet.Prelude.Memory.{Run, done, ◌>>?◌}
use cppnet.Prelude.Strings.{position}
use cppnet.Io.{ErrorCondition, system, Writer}
use cppnet.Io.Readline.{LineResult, line, line_error}
use cppnet.Util.StringUtil.{split_string, trim_string}
use cppnet.Http.Headers.{Headers, add_value}
use cppnet.Http.Http11.{Decoded, expected, unexpected}

abbrev pub add_each : List ℕ → List (List ℕ) → Headers → Headers
add_each key [] headers = headers
add_each key (v ∷ vals) headers = add_each key vals (add_value key v headers)

-- What a line adds to the headers, if the split of its value ends.
pub add_field : List ℕ → Headers → Option Headers
add_field text headers = elim (position (λ c. c == b':') text) [
  | none ↦ some headers
  | some split_idx ↦ elim (split_string (trim_string (drop (split_idx + 1) text)) b',' 0) [
    | none ↦ none
    | some vals ↦ some (add_each (trim_string (take split_idx text)) vals headers)
  ]
]

-- The texts that `write_headers` writes for the values of a key behind the first.
abbrev value_pieces : List (List ℕ) → List (List ℕ)
value_pieces [] = []
value_pieces (v ∷ vals) = codes ", " ∷ v ∷ value_pieces vals

abbrev pub field_pieces : List ℕ × List (List ℕ) → List (List ℕ)
field_pieces (key, []) = key ∷ codes ": " ∷ codes "\r\n" ∷ []
field_pieces (key, v ∷ vals) = key ∷ codes ": " ∷ v ∷ (value_pieces vals ++ (codes "\r\n" ∷ []))

abbrev pub header_pieces : Headers → List (List ℕ)
header_pieces [] = []
header_pieces (e ∷ headers) = field_pieces e ++ header_pieces headers

module _ {S : Type 0} (wr : Writer S) where
  abbrev pub unless_error :
      Option ErrorCondition → S → Option ErrorCondition × S → Option ErrorCondition × S
  unless_error (some e) s rest = (some e, s)
  unless_error none s rest = rest

  -- One call of `write` after the other, up to the first error.
  pub write_pieces : List (List ℕ) → S → Option ErrorCondition × S
  write_pieces [] s = (none, s)
  write_pieces (t ∷ pieces) s =
      let r = wr.write_some t s in unless_error r.0.err r.1 (write_pieces pieces r.1)

  pub write_headers : Headers → S → Option ErrorCondition × S
  unfolding write_pieces
  write_headers headers s = write_pieces (header_pieces headers) s

module _ {S : Type 0} (next_line : S → Run (Option (LineResult × S))) (max_read : ℕ) where
  abbrev pub Parse : Type 0
  Parse = Run (Option (Decoded Headers × S))

  -- What a round does with the line it has read: `again` is the loop.
  after_line : (ℕ → Headers → S → Parse) → ℕ → Headers → LineResult × S → Parse
  after_line again amount_read headers (line_error e, s) = done (some (unexpected e, s))
  after_line again amount_read headers (line [], s) = done (some (expected headers, s))
  after_line again amount_read headers (line (c ∷ cs), s) = elim (add_field (c ∷ cs) headers) [
    | none ↦ done none
    | some headers' ↦ again (amount_read + length (c ∷ cs)) headers' s
  ]

  -- The loop. Without fuel it has not ended. `std::errc::value_too_large` is 75.
  fields_loop : ℕ → ℕ → Headers → S → Parse
  unfolding after_line
  fields_loop zero amount_read headers s =
      if ltb amount_read max_read then done none else done (some (unexpected (system 75), s))
  fields_loop (suc fuel) amount_read headers s =
      let round : Parse = next_line s >>? after_line (fields_loop fuel) amount_read headers in
      if ltb amount_read max_read then round else done (some (unexpected (system 75), s))

  -- Each round but the last reads at least one byte of a line.
  pub parse_headers : Headers → S → Parse
  unfolding fields_loop
  parse_headers headers s = fields_loop (suc max_read) 0 headers s
