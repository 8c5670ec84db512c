-- ===== src/Http/Headers.antt =====
-- src/http/headers.cpp and include/http/headers.hpp. The map is the list of its entries. A
-- `string_view` and a `string` are the same list of chars, so the overloads are one function.
pub mod Map
pub mod Length
use cppnet.Util.StringUtil.{split_string, equal_ignore_case, to_lower, trim_string, unquote}
use cppnet.Prelude.Strings.{position, same_string}
use cppnet.Prelude.Chars.{from_chars, decimal_text, number, refused}
use cppnet.Prelude.{
  ℕ, Bool, List, Option, [], codes, drop, false, if◌then◌else◌, length, map, none, some, take, ◌++◌,
  ◌+◌, ◌==◌, ◌^◌, ◌||◌, ◌∷◌,
}

-- The class `headers`: the values of each key.
abbrev pub Headers : Type 0
Headers = List (List ℕ × List (List ℕ))

-- `values.find(key)`, under `keyequal`.
abbrev pub find_values : List ℕ → Headers → Option (List (List ℕ))
find_values key [] = none
find_values key (e ∷ m) = if equal_ignore_case key e.0 then some e.1 else find_values key m

-- `insert_or_assign`: a key that is there keeps its spelling.
pub set_values : List ℕ → List (List ℕ) → Headers → Headers
set_values key vals [] = (key, vals) ∷ []
set_values key vals (e ∷ m) =
    if equal_ignore_case key e.0 then (e.0, vals) ∷ m else e ∷ set_values key vals m

pub set_value : List ℕ → List ℕ → Headers → Headers
set_value key val m = set_values key (val ∷ []) m

-- `values[key].push_back(val)`
pub add_value : List ℕ → List ℕ → Headers → Headers
add_value key val [] = (key, val ∷ []) ∷ []
add_value key val (e ∷ m) =
    if equal_ignore_case key e.0 then (e.0, e.1 ++ (val ∷ [])) ∷ m else e ∷ add_value key val m

unfoldable pub get_all : List ℕ → Headers → Option (List (List ℕ))
get_all key m = find_values key m

abbrev pub front : List (List ℕ) → Option (List ℕ)
front [] = none
front (v ∷ vs) = some v

unfoldable pub get_value : List ℕ → Headers → Option (List ℕ)
get_value key m = elim (find_values key m) [ none ↦ none | some vals ↦ front vals ]

-- `std::to_string` of a `std::size_t`, which has at most 20 digits.
pub set_content_length : ℕ → Headers → Headers
unfolding set_value
set_content_length n m = set_value (codes "Content-Length") (decimal_text 20 n) m

pub get_content_length : Headers → Option ℕ
unfolding get_value
get_content_length m = elim (get_value (codes "Content-Length") m) [
  | none ↦ none
  | some text ↦ elim (from_chars (2 ^ 64) text) [ number v ↦ some v | refused e ↦ none ]
]

-- The struct `content_type`, with its map of parameters as the list of its entries.
pub record ContentType : Type 0 where
  pub type : List ℕ
  pub parameters : List (List ℕ × List ℕ)

abbrev find_parameter : List ℕ → List (List ℕ × List ℕ) → Option (List ℕ)
find_parameter key [] = none
find_parameter key (e ∷ rest) = if same_string e.0 key then some e.1 else find_parameter key rest

-- `parameters.emplace`, which keeps what is there.
abbrev emplace : List ℕ → List ℕ → List (List ℕ × List ℕ) → List (List ℕ × List ℕ)
emplace key val [] = (key, val) ∷ []
emplace key val (e ∷ rest) = if same_string e.0 key then e ∷ rest else e ∷ emplace key val rest

pub charset : ContentType → Option (List ℕ)
charset t = find_parameter (codes "charset") t.parameters

abbrev parameters_text : List (List ℕ × List ℕ) → List ℕ
parameters_text [] = []
parameters_text (e ∷ rest) = codes ": " ++ (e.0 ++ (codes "=" ++ (e.1 ++ parameters_text rest)))

pub set_content_type : ContentType → Headers → Headers
unfolding set_value
set_content_type t m =
    if length t.type == 0
    then m
    else set_value (codes "Content-Type") (t.type ++ parameters_text t.parameters) m

-- A round of the loop of `get_content_type`, for the text of one parameter.
abbrev add_parameter : List ℕ → List (List ℕ × List ℕ) → List (List ℕ × List ℕ)
add_parameter param parameters = elim (position (λ c. c == b'=') param) [
  | none ↦ emplace param [] parameters
  | some split ↦
      let key = trim_string (take split param) in
      let val = unquote (trim_string (drop (split + 1) param)) in
      if equal_ignore_case key (codes "charset")
      then emplace (map to_lower key) (map to_lower val) parameters
      else emplace key val parameters
]

abbrev add_parameters : List (List ℕ) → List (List ℕ × List ℕ) → List (List ℕ × List ℕ)
add_parameters [] parameters = parameters
add_parameters (p ∷ params) parameters = add_parameters params (add_parameter p parameters)

-- `get_content_type`, if the split ends. The type is all of the value.
pub get_content_type : Headers → Option (Option ContentType)
unfolding get_value
get_content_type m = elim (get_value (codes "Content-Type") m) [
  | none ↦ some none
  | some text ↦ elim (position (λ c. c == b';') text) [
    | none ↦ some (some (record { type = text; parameters = [] }))
    | some split ↦ elim (split_string text b';' (split + 1)) [
      | none ↦ none
      | some params ↦ some (some (record { type = text; parameters = add_parameters params [] }))
    ]
  ]
]

pub get_content_encoding : Headers → Option (List (List ℕ))
unfolding get_all
get_content_encoding m = get_all (codes "Content-Encoding") m

pub get_transfer_encoding : Headers → Option (List (List ℕ))
unfolding get_all
get_transfer_encoding m = get_all (codes "Transfer-Encoding") m

abbrev pub any_chunked : List (List ℕ) → Bool
any_chunked [] = false
any_chunked (v ∷ vs) = equal_ignore_case (trim_string v) (codes "chunked") || any_chunked vs

pub is_chunked : Headers → Bool
unfolding get_transfer_encoding
is_chunked m = elim (get_transfer_encoding m) [ none ↦ false | some vals ↦ any_chunked vals ]
