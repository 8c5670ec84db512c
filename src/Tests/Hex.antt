-- ===== src/Tests/Hex.antt =====
-- The hex codec on three bytes.

use cppnet.Prelude.{List, [], arith, codes, none, refl, some, ℕ, ◌∷◌, ◌≡◌}
use cppnet.Prelude.Memory.{◌>>=◌, done}
use cppnet.Encoding.Hex.{encode_byte, hex_digit, encode, decode, encode_to}
use cppnet.Encoding.Hex.Encode.{encode_to-hex_text, encode-hex_text}
use cppnet.Encoding.Hex.Digits.{decode-hex_bytes}
use cppnet.Encoding.Hex.RoundTrip.{decode-encode}

abbrev three : List ℕ
three = 0 ∷ 0x7f ∷ 0xff ∷ []

encode_to-hex_text_example :
    encode_to three (1 ∷ 2 ∷ 0 ∷ 0 ∷ 0 ∷ 0 ∷ 0 ∷ 0 ∷ 9 ∷ []) 2
    ≡ done (1 ∷ 2 ∷ 48 ∷ 48 ∷ 55 ∷ 70 ∷ 70 ∷ 70 ∷ 9 ∷ [])
unfolding encode_byte hex_digit
encode_to-hex_text_example =
    encode_to-hex_text three (1 ∷ 2 ∷ []) (0 ∷ 0 ∷ 0 ∷ 0 ∷ 0 ∷ 0 ∷ []) (9 ∷ []) refl

encode-hex_text_example : encode three ≡ done (codes "007FFF")
unfolding encode_byte hex_digit
encode-hex_text_example = encode-hex_text three

decode-hex_bytes_example : decode (codes "007ffG") ≡ done none
decode-hex_bytes_example = decode-hex_bytes (codes "007ffG")

decode-encode_example : (encode three >>= decode) ≡ done (some three)
decode-encode_example = decode-encode three (omega arith, (omega arith, (omega arith, tt)))
