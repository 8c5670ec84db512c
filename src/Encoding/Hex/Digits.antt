-- ===== src/Encoding/Hex/Digits.antt =====
-- What the decoder of encoding/hex.cpp computes, by the values of the digits.

use cppnet.Prelude.{
  ℕ, List, Option, [], ◌∷◌, ◌≡◌, ◌+◌, ◌-◌, ◌*◌, none, some, true, false, if◌then◌else◌, ltb, arith,
  refl, ap, ap₂, sym, ◌∙◌, inl, inr, Bool-cases,
}
use cppnet.Prelude.Memory.{done}
use cppnet.Encoding.Hex.{is_hex_char, ensure_uppercase, parse, decode}
use cppnet.Encoding.Hex.Decode.{pair_bytes, decode-pair_bytes}
use cppnet.Encoding.Hex.RoundTrip.{decode_pair_sum}
use mathlib.Core.Option

-- The value of a digit: `0` to `9`, `A` to `F`, and `a` to `f`.
abbrev pub digit_of : ℕ → Option ℕ
digit_of c =
    if ltb c 48
    then none
    else if ltb c 58
    then some (c - 48)
    else if ltb c 65
    then none
    else if ltb c 71
    then some (c - 55)
    else if ltb c 97
    then none
    else if ltb c 103
    then some (c - 87)
    else none

-- The byte of two digits in front of the others.
abbrev pub byte_before : Option ℕ → Option ℕ → Option (List ℕ) → Option (List ℕ)
byte_before none lo rest = none
byte_before (some u) none rest = none
byte_before (some u) (some v) rest = Option.map (λ bs. (u * 16 + v) ∷ bs) rest

-- The bytes that pairs of digits stand for, if all are digits and none is left over.
abbrev pub hex_bytes : List ℕ → Option (List ℕ)
hex_bytes [] = some []
hex_bytes (hi ∷ []) = none
hex_bytes (hi ∷ lo ∷ cs) = byte_before (digit_of hi) (digit_of lo) (hex_bytes cs)

digit_of-none : (c : ℕ) → is_hex_char c ≡ false → digit_of c ≡ none
unfolding is_hex_char
digit_of-none c h = ground (arith, h)

digit_of-some : (c : ℕ) → is_hex_char c ≡ true → digit_of c ≡ some (parse (ensure_uppercase c))
unfolding is_hex_char parse ensure_uppercase
digit_of-some c h = ground (arith, h)

pair_bytes-hex_bytes : (cs : List ℕ) → pair_bytes cs ≡ hex_bytes cs
pair_bytes-hex_bytes [] = refl
pair_bytes-hex_bytes (hi ∷ []) = refl
pair_bytes-hex_bytes (hi ∷ lo ∷ cs) = elim (Bool-cases (is_hex_char hi)) [
  | inr e ↦ rw e (ap (λ o. byte_before o (digit_of lo) (hex_bytes cs)) (sym (digit_of-none hi e)))
  | inl e ↦ elim (Bool-cases (is_hex_char lo)) [
    | inr e' ↦
        rw (e, e')
          (ap₂ (λ o o'. byte_before o o' (hex_bytes cs)) (sym (digit_of-some hi e))
            (sym (digit_of-none lo e')))
    | inl e' ↦
        rw (e, e', decode_pair_sum hi lo e e', pair_bytes-hex_bytes cs)
          (ap₂ (λ o o'. byte_before o o' (hex_bytes cs)) (sym (digit_of-some hi e))
            (sym (digit_of-some lo e')))
  ]
]

-- `decode` never leaves its buffers: on every input it returns the bytes that the pairs of digits
-- stand for, or nothing if the length is odd or some char is no digit.
pub decode-hex_bytes : (cs : List ℕ) → decode cs ≡ done (hex_bytes cs)
decode-hex_bytes cs = decode-pair_bytes cs ∙ ap done (pair_bytes-hex_bytes cs)
