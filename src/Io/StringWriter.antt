-- ===== src/Io/StringWriter.antt =====
-- include/io/string_writer.hpp, over bytes.

use cppnet.Prelude.{
  List, [], ap, append-nil, append_assoc, arith, length, length-append, none, refl, sym, take_long,
  ℕ, ◌++◌, ◌+◌, ◌∙◌, ◌∷◌, ◌≡◌,
}
use cppnet.Io.{Result, IsSink}

-- The class `string_writer`: its parts.
abbrev pub StringWriter : Type 0
StringWriter = List (List ℕ)

abbrev pub string_write : List ℕ → StringWriter → Result × StringWriter
string_write bytes parts = (record { count = length bytes; err = none }, parts ++ (bytes ∷ []))

-- `build`
abbrev pub build_string : StringWriter → List ℕ
build_string [] = []
build_string (p ∷ parts) = p ++ build_string parts

-- `length`
pub string_length : StringWriter → ℕ
string_length [] = 0
string_length (p ∷ parts) = length p + string_length parts

build_string-append :
    (parts : StringWriter) (bytes : List ℕ)
    → build_string (parts ++ (bytes ∷ [])) ≡ build_string parts ++ bytes
build_string-append [] bytes = append-nil bytes
build_string-append (p ∷ parts) bytes =
    ap (λ t. p ++ t) (build_string-append parts bytes)
    ∙ sym (append_assoc p (build_string parts) bytes)

-- A `string_writer` appends all that it is given to the string that it builds.
pub string_write-IsSink : IsSink (record { write_some = string_write }) build_string
string_write-IsSink = record {
  appends = λ bytes parts.
      build_string-append parts bytes
      ∙ ap (λ t. build_string parts ++ t) (sym (take_long (length bytes) bytes (omega arith)));
  counts = λ bytes parts. omega arith;
  all_or_error = λ bytes parts e. refl;
}

-- `length` is the length of the string that is built.
string_length-build_string :
    (parts : StringWriter) → length (build_string parts) ≡ string_length parts
unfolding string_length
string_length-build_string [] = refl
string_length-build_string (p ∷ parts) =
    omega (arith, length-append p (build_string parts), string_length-build_string parts)
