-- ===== src/Http/Headers/Length.antt =====
-- The length of the content, as the text of a header.

use cppnet.Prelude.Strings.{same_string_refl}
use cppnet.Prelude.{
  ℕ, ◌≡◌, List, ap, codes, false, none, refl, some, true, ◌<◌, ◌^◌, ◌∙◌, Option, [], append-nil,
  arith, map, sym, ◌∷◌,
}
use cppnet.Prelude.Chars.{decimal_text, from_chars, from_chars-decimal_text, number, refused}
use cppnet.Util.StringUtil.{equal_ignore_case, to_lower}
use cppnet.Http.Headers.{
  Headers, set_value, get_all, front, get_value, set_content_length, get_content_length,
  find_values,
}
use cppnet.Http.Headers.Map.{get_all-set_value, equal_ignore_case-to_lower}

abbrev first_value : Option (List (List ℕ)) → Option (List ℕ)
first_value none = none
first_value (some vals) = front vals

-- get is the first of all values.
get_value-front : (key : List ℕ) (m : Headers) → get_value key m ≡ first_value (get_all key m)
unfolding get_value get_all
get_value-front key m = ground arith

abbrev number_of_text : Option (List ℕ) → Option ℕ
number_of_text none = none
number_of_text (some text) = elim (from_chars (2 ^ 64) text) [
  | number v ↦ some v
  | refused e ↦ none
]

get_content_length-number :
    (m : Headers) → get_content_length m ≡ number_of_text (get_value (codes "Content-Length") m)
unfolding get_content_length get_value
get_content_length-number m =
    elim (find_values (codes "Content-Length") m)
      as (λ o.
        elim (elim o as (λ x. Option (List ℕ)) [ none ↦ none | some vals ↦ front vals ])
          as (λ x. Option ℕ) [
            | none ↦ none
            | some text ↦ elim (from_chars (2 ^ 64) text) [ number v ↦ some v | refused e ↦ none ]
          ]
        ≡ number_of_text (elim o [ none ↦ none | some vals ↦ front vals ])) [
          | none ↦ refl
          | some [] ↦ refl
          | some (v ∷ vs) ↦ refl
        ]

-- A length of 64 bits is read back from the header that set_content_length writes, and the other
-- headers stay what they are.
pub get_content_length-set_content_length :
    (n : ℕ) (m : Headers)
    → n < 2 ^ 64
    → (get_content_length (set_content_length n m) ≡ some n)
      × ((key : List ℕ)
          → equal_ignore_case key (codes "Content-Length") ≡ false
          → get_all key (set_content_length n m) ≡ get_all key m)
unfolding set_content_length
get_content_length-set_content_length n m h =
    let name = codes "Content-Length" in
    let text = decimal_text 20 n in
    let same : equal_ignore_case name name ≡ true =
      equal_ignore_case-to_lower name name ∙ same_string_refl (map to_lower name) in
    let here : get_all name (set_value name text m) ≡ some (text ∷ []) =
      get_all-set_value name name text m ∙ rw same refl in
    let value : from_chars (2 ^ 64) text ≡ number n =
      ap (from_chars (2 ^ 64)) (sym (append-nil text))
      ∙ from_chars-decimal_text (2 ^ 64) 20 n [] h (omega arith) (omega arith) tt in
    (
      get_content_length-number (set_value name text m)
          ∙ ap number_of_text (get_value-front name (set_value name text m) ∙ ap first_value here)
          ∙ ap (λ p. elim p as (λ x. Option ℕ) [ number v ↦ some v | refused e ↦ none ]) value,
      λ key other. get_all-set_value name key text m ∙ rw other refl,
    )
