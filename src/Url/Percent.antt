-- ===== src/Url/Percent.antt =====
-- `url::encode` and `url::decode` of src/url.cpp.
pub mod RoundTrip
pub mod Spaced
pub mod Ends
use cppnet.Prelude.{
  List, Option, [], drop, if◌then◌else◌, leb, length, ltb, none, some, suc, take, zero, ℕ, ◌%◌,
  ◌&&◌, ◌*◌, ◌++◌, ◌+◌, ◌-◌, ◌/◌, ◌==◌, ◌∷◌,
}
use cppnet.Prelude.Memory.{◌>>=◌, read, Run, done, fault}
use cppnet.Prelude.Strings.{position, find_from, one_of}

-- A digit of `std::to_chars` in base 16.
abbrev pub hex_char : ℕ → ℕ
hex_char v = if ltb v 10 then v + b'0' else v - 10 + b'a'

-- `std::to_chars` of a char in base 16, into two zero chars. A char of 128 or above is negative,
-- and fits if it is at least -15. Where it does not fit, what is in the chars is not specified.
pub char_text : ℕ → Run (List ℕ)
char_text c =
    if ltb c 16
    then done (hex_char c ∷ 0 ∷ [])
    else if ltb c 128
    then done (hex_char (c / 16) ∷ hex_char (c % 16) ∷ [])
    else if ltb 240 c
    then done (b'-' ∷ hex_char (256 - c) ∷ [])
    else fault

-- The loop of `encode`, which searches on at the index where it found the last char. Without fuel
-- it has not ended.
encode_loop : ℕ → List ℕ → List ℕ → ℕ → Run (Option (List ℕ))
unfolding char_text
encode_loop zero reserved str idx = done none
encode_loop (suc fuel) reserved str idx = elim (find_from (one_of reserved) str idx) [
  | none ↦ done (some str)
  | some i ↦ (do
    c ← read str i
    digits ← char_text c
    rest ← encode_loop fuel reserved (drop (i + 1) str) i
    done (elim rest [ none ↦ none | some out ↦ some (take i str ++ (b'%' ∷ (digits ++ out))) ]))
]

pub encode : List ℕ → List ℕ → Run (Option (List ℕ))
unfolding encode_loop
encode reserved str = encode_loop (suc (length str)) reserved str 0

-- The value of a digit in base 16, as `std::from_chars` reads it.
abbrev pub hex_value : ℕ → Option ℕ
hex_value c =
    if leb b'0' c && leb c b'9'
    then some (c - b'0')
    else if leb b'a' c && leb c b'f'
    then some (c - b'a' + 10)
    else if leb b'A' c && leb c b'F'
    then some (c - b'A' + 10)
    else none

-- `std::from_chars` of at most two chars in base 16: as many digits as there are, at least one.
abbrev pub from_chars : List ℕ → Option ℕ
from_chars [] = none
from_chars (a ∷ []) = hex_value a
from_chars (a ∷ b ∷ rest) = elim (hex_value a) [
  | none ↦ none
  | some hi ↦ elim (hex_value b) [ none ↦ some hi | some lo ↦ some (hi * 16 + lo) ]
]

-- `str.substr(i)` throws where `i` is behind the end, which ends `decode`.
abbrev pub substr : ℕ → List ℕ → Run (List ℕ)
substr i str = if leb i (length str) then done (drop i str) else fault

-- What a round of `decode` writes: nothing, not even the text before it, where the digits are no
-- number.
abbrev pub decoded : Option ℕ → List ℕ → List ℕ
decoded none before = []
decoded (some v) before = before ++ (v ∷ [])

abbrev pub joined : List ℕ → Option (List ℕ) → Option (List ℕ)
joined before none = none
joined before (some out) = some (before ++ out)

-- The loop of `decode`. Without fuel it has not ended.
pub decode_loop : ℕ → List ℕ → Run (Option (List ℕ))
decode_loop zero str = done none
decode_loop (suc fuel) str = elim (position (λ c. c == b'%') str) [
  | none ↦ done (some str)
  | some idx ↦ (do
    rest ← substr (idx + 3) str
    out ← decode_loop fuel rest
    done (joined (decoded (from_chars (take 2 (drop (idx + 1) str))) (take idx str)) out))
]

unfoldable pub decode : List ℕ → Run (Option (List ℕ))
unfolding decode_loop
decode str = decode_loop (suc (length str)) str
