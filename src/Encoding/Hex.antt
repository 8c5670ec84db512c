-- ===== src/Encoding/Hex.antt =====
-- src/encoding/hex.cpp and include/encoding/hex.hpp. Bytes and chars are numbers below 256.
pub mod Encode
pub mod Decode
pub mod RoundTrip
pub mod Digits
use cppnet.Prelude.{
  ℕ, zero, suc, ◌+◌, ◌-◌, ◌*◌, ◌/◌, ◌%◌, ◌^◌, bit_and, bit_or, Bool, true, false, not, ◌&&◌, ◌||◌,
  List, [], ◌∷◌, Option, none, some, ltb, leb, ◌==◌, if◌then◌else◌, length, replicate,
}
use cppnet.Prelude.Memory.{Run, done, ◌>>=◌, read, write}

-- A char of 128 or above is negative and fails each test, as it does here.
unfoldable pub is_hex_char : ℕ → Bool
is_hex_char c = leb b'0' c && leb c b'9' || (leb b'A' c && leb c b'F' || leb b'a' c && leb c b'f')

pub encoded_size : ℕ → ℕ
encoded_size input_size = input_size * 2

pub decoded_size : ℕ → ℕ
decoded_size input_size = input_size / 2

unfoldable pub hex_digit : ℕ → ℕ
hex_digit v = if ltb v 0xA then v + b'0' else v - 0xA + b'A'

-- `encode(std::byte)`: the digits of the high and of the low half.
unfoldable pub encode_byte : ℕ → ℕ × ℕ
unfolding hex_digit
encode_byte b = (hex_digit (bit_and b 0xF0 / 2 ^ 4), hex_digit (bit_and b 0x0F))

-- The loop of `encode_to`, at the bytes from `data[i]` on.
encode_to_loop : List ℕ → ℕ → List ℕ → ℕ → Run (List ℕ)
encode_to_loop [] i out offset = done out
encode_to_loop (b ∷ data') i out offset =
    let chars = encode_byte b in
    do
      out₁ ← write out (offset + i * 2 + 0) chars.0
      out₂ ← write out₁ (offset + i * 2 + 1) chars.1
      encode_to_loop data' (i + 1) out₂ offset

pub encode_to : List ℕ → List ℕ → ℕ → Run (List ℕ)
unfolding encode_to_loop
encode_to bytes out offset = encode_to_loop bytes 0 out offset

-- `encode_to` of one byte.
unfoldable pub encode_byte_to : ℕ → List ℕ → ℕ → Run (List ℕ)
encode_byte_to b out offset =
    let chars = encode_byte b in
    do out₁ ← write out (offset + 0) chars.0; write out₁ (offset + 1) chars.1

-- `encode(std::span<const std::byte>)`
pub encode : List ℕ → Run (List ℕ)
unfolding encode_to encoded_size
encode bytes = encode_to bytes (replicate (encoded_size (length bytes)) 0) 0

-- A char of 128 or above is negative: it is not above 'F', and not at or above 'A'.
unfoldable pub ensure_uppercase : ℕ → ℕ
ensure_uppercase c = if ltb b'F' c && ltb c 128 then c - (b'a' - b'A') else c

unfoldable pub parse : ℕ → ℕ
parse c = if leb b'A' c && ltb c 128 then c - b'A' + 0xA else (c + 256 - b'0') % 256

-- `decode(char, char)`
unfoldable pub decode_pair : ℕ → ℕ → ℕ
unfolding ensure_uppercase parse
decode_pair hi lo =
    let upper = parse (ensure_uppercase hi) in
    let lower = parse (ensure_uppercase lo) in bit_or (upper * 2 ^ 4) lower % 256

-- The loop of `decode_to` over `out`, with `n` rounds left from round `i` on.
pub decode_to_loop : ℕ → ℕ → List ℕ → List ℕ → Run (Bool × List ℕ)
decode_to_loop zero i chars out = done (true, out)
decode_to_loop (suc n) i chars out = do
  hi ← read chars (i * 2 + 0)
  lo ← read chars (i * 2 + 1)
  if not (is_hex_char hi) || not (is_hex_char lo)
      then done (false, out)
      else (do out' ← write out i (decode_pair hi lo); decode_to_loop n (i + 1) chars out')

-- `decode_to`: whether the input was valid, and what is left in `out`.
pub decode_to : List ℕ → List ℕ → Run (Bool × List ℕ)
unfolding decode_to_loop
decode_to chars out =
    if not (length chars % 2 == 0) || ltb (length out * 2) (length chars)
    then done (false, out)
    else decode_to_loop (length out) 0 chars out

-- `decode(std::span<const char>)`
pub decode : List ℕ → Run (Option (List ℕ))
unfolding decode_to decoded_size
decode chars =
    if not (length chars % 2 == 0)
    then done none
    else (decode_to chars (replicate (decoded_size (length chars)) 0) >>= λ r.
        done (if r.0 then some r.1 else none))
