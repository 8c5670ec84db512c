-- ===== src/Tests/Base64.antt =====
-- The standard encoding of base64 with padding, on four bytes.

use cppnet.Prelude.{All, IsByte, List, [], arith, length, refl, some, true, ℕ, ◌∷◌, ◌≡◌}
use cppnet.Prelude.Memory.{◌>>=◌, done, fault}
use cppnet.Encoding.Base64.{
  Encoding, standard_alphabet, make, has_padding, encode, decode, encoded_size,
}
use cppnet.Encoding.Base64.Text.{base64_text, length-base64_text}
use cppnet.Encoding.Base64.Codec.{IsCodec, make-IsCodec}
use cppnet.Encoding.Base64.RoundTrip.{decode-encode-text, decode_reads_behind}

abbrev pad : ℕ
pad = 61

standard_made :
    (e : Encoding) × (make standard_alphabet pad ≡ done e)
    × IsCodec e
    × (e.encoder ≡ standard_alphabet)
    × (e.padchar ≡ pad)
standard_made = make-IsCodec standard_alphabet pad refl refl refl refl

abbrev standard : Encoding
standard = standard_made.0

standard-padding : has_padding standard ≡ true
standard-padding = rw standard_made.4 refl

abbrev four : List ℕ
four = 0 ∷ 1 ∷ 0xfe ∷ 0xff ∷ []

four_bytes : All IsByte four
four_bytes = (omega arith, (omega arith, (omega arith, (omega arith, tt))))

make-IsCodec_example :
    (e : Encoding) × (make standard_alphabet 61 ≡ done e)
    × IsCodec e
    × (e.encoder ≡ standard_alphabet)
    × (e.padchar ≡ 61)
make-IsCodec_example = make-IsCodec standard_alphabet 61 refl refl refl refl

length-base64_text_example :
    length (base64_text standard four) ≡ encoded_size 4 (has_padding standard)
length-base64_text_example = length-base64_text standard four

decode-encode-text_example :
    (encode standard four >>= λ text. decode standard (record { chars = text; behind = done 0 }))
    ≡ done (some four)
decode-encode-text_example =
    decode-encode-text standard four 0 standard_made.2 four_bytes (λ _. omega arith) (omega arith)

decode_reads_behind_example :
    (encode standard four >>= λ text. decode standard (record { chars = text; behind = fault }))
    ≡ fault
decode_reads_behind_example =
    decode_reads_behind standard four standard_made.2 standard-padding four_bytes
      (λ h. absurd (omega (arith, h))) (omega arith)
