-- ===== src/Encoding/Hex/RoundTrip.antt =====
-- The encoder and the decoder of encoding/hex.cpp undo one another.

use cppnet.Prelude.{
  length, not, false, ◌||◌, ltb, ◌%◌, ℕ, ◌+◌, ◌*◌, ◌<◌, List, [], ◌∷◌, ◌≡◌, refl, ap, ◌∙◌, arith,
  Bool, some, ◌&&◌, sym, inl, inr, All, all_below, all_below_sound, map, true, ◌/◌, ◌==◌, bit_and,
  ==_iff, Option-cases, IsByte,
}
use cppnet.Prelude.Bits.{bit_or_disjoint, bit_and_15}
use cppnet.Prelude.Memory.{fault, Run, done-injective, done, ◌>>=◌}
use cppnet.Encoding.Hex.{
  decode_to, decode_to_loop, encode_byte, is_hex_char, encode, decode_pair, decode,
  ensure_uppercase, hex_digit, parse,
}
use cppnet.Encoding.Hex.Encode.{hex_text, encode-hex_text, length-hex_text}
use cppnet.Encoding.Hex.Decode.{
  map_nothing, pair_bytes, decode-pair_bytes, verdict, decode_to_loop-pair_bytes,
}

-- A byte survives being written as two digits and read back.
abbrev survives : ℕ → Bool
survives b =
    let (hi, lo) = encode_byte b in is_hex_char hi && (is_hex_char lo && (decode_pair hi lo == b))

byte_table : all_below 256 survives ≡ true
unfolding is_hex_char encode_byte decode_pair
byte_table = refl

pub decode_pair-encode_byte :
    (b : ℕ) → IsByte b → decode_pair (encode_byte b).0 (encode_byte b).1 ≡ b
decode_pair-encode_byte b h = ground (arith, all_below_sound 256 survives b byte_table h)

pair_bytes-hex_text : (bs : List ℕ) → All IsByte bs → pair_bytes (hex_text bs) ≡ some bs
pair_bytes-hex_text [] h = refl
pair_bytes-hex_text (b ∷ bs) (hb, hbs) =
    let table = all_below_sound 256 survives b byte_table hb in
    ground (arith, table, pair_bytes-hex_text bs hbs)

abbrev high_same : ℕ → Bool
high_same v = bit_and v 0xF0 / 16 == v / 16

high_table : all_below 256 high_same ≡ true
high_table = refl

digit_of_char :
    (c : ℕ) → is_hex_char c ≡ true → hex_digit (parse (ensure_uppercase c)) ≡ ensure_uppercase c
unfolding is_hex_char hex_digit parse ensure_uppercase
digit_of_char c h = ground arith

parse-lt : (c : ℕ) → is_hex_char c ≡ true → parse (ensure_uppercase c) < 16
unfolding is_hex_char parse ensure_uppercase
parse-lt c h = ground arith

-- `decode_pair` with the digits' values in place of the shift and the mask.
pub decode_pair_sum :
    (hi lo : ℕ)
    → is_hex_char hi ≡ true
    → is_hex_char lo ≡ true
    → decode_pair hi lo ≡ parse (ensure_uppercase hi) * 16 + parse (ensure_uppercase lo)
unfolding decode_pair
decode_pair_sum hi lo h l =
    let u = parse (ensure_uppercase hi) in
    let v = parse (ensure_uppercase lo) in
    omega (arith, bit_or_disjoint 4 u v (parse-lt lo l), parse-lt hi h, parse-lt lo l)

encode_byte_lem :
    (b : ℕ) → encode_byte b ≡ (hex_digit (bit_and b 0xF0 / 16), hex_digit (bit_and b 0x0F))
unfolding encode_byte
encode_byte_lem b = refl

encode_byte-decode_pair :
    (hi lo : ℕ)
    → is_hex_char hi ≡ true
    → is_hex_char lo ≡ true
    → encode_byte (decode_pair hi lo) ≡ (ensure_uppercase hi, ensure_uppercase lo)
encode_byte-decode_pair hi lo h l =
    let u = parse (ensure_uppercase hi) in
    let v = parse (ensure_uppercase lo) in
    let n = decode_pair hi lo in
    let sum = decode_pair_sum hi lo h l in
    let top : bit_and n 0xF0 / 16 ≡ u = omega (
      arith,
      sum,
      parse-lt hi h,
      parse-lt lo l,
      (==_iff _ _).0 (
          all_below_sound 256 high_same n high_table
            (omega (arith, sum, parse-lt hi h, parse-lt lo l))),
    ) in
    let low : bit_and n 0x0F ≡ v = omega (arith, sum, bit_and_15 n, parse-lt lo l) in
    rw (encode_byte_lem, top, low, digit_of_char hi h, digit_of_char lo l) refl

hex_text-pair_bytes :
    (cs bs : List ℕ) → pair_bytes cs ≡ some bs → hex_text bs ≡ map ensure_uppercase cs
hex_text-pair_bytes [] bs h = ground (arith, h)
hex_text-pair_bytes (hi ∷ []) bs h = cc
hex_text-pair_bytes (hi ∷ lo ∷ cs) bs h = elim (Option-cases (pair_bytes cs)) [
  | inl e ↦ ground (arith, e)
  | inr (more, e) ↦ ground (arith, e, hex_text-pair_bytes cs more e, encode_byte-decode_pair hi lo)
]

-- Encoding some bytes and decoding the text gives the bytes back.
pub decode-encode : (bs : List ℕ) → All IsByte bs → (encode bs >>= decode) ≡ done (some bs)
decode-encode bs h =
    rw (encode-hex_text bs, decode-pair_bytes (hex_text bs)) (ap done (pair_bytes-hex_text bs h))

-- Decoding a text and encoding the bytes gives the text back, with its letters in upper case.
encode-decode :
    (cs bs : List ℕ) → decode cs ≡ done (some bs) → encode bs ≡ done (map ensure_uppercase cs)
encode-decode cs bs h =
    encode-hex_text bs
    ∙ ap done (hex_text-pair_bytes cs bs (done-injective _ _ (sym (decode-pair_bytes cs) ∙ h)))

decode_to-verdict :
    (m : Run (Bool × List ℕ)) (bs : List ℕ) → (m >>= verdict) ≡ done (some bs) → m ≡ done (true, bs)
decode_to-verdict fault bs h = absurd (cc (h))
decode_to-verdict (done (false, out)) bs h = absurd (cc (h))
decode_to-verdict (done (true, out)) bs h = ap (λ o. done (true, o)) (cc (h))

-- `decode_to` reads the bytes back from their text, into a buffer of their length.
pub decode_to-hex_text :
    (bs out : List ℕ)
    → All IsByte bs
    → length out ≡ length bs
    → decode_to (hex_text bs) out ≡ done (true, bs)
unfolding decode_to
decode_to-hex_text bs out hb size =
    let text = hex_text bs in
    let fits : not (length text % 2 == 0) || ltb (length out * 2) (length text) ≡ false =
      ground (arith, length-hex_text bs, size) in
    rw fits (
      decode_to-verdict (decode_to_loop (length out) 0 text out) bs (
        decode_to_loop-pair_bytes (length out) 0 [] text [] out refl refl refl
          (omega (arith, length-hex_text bs, size))
        ∙ ap done (map_nothing (pair_bytes text))
        ∙ ap done (pair_bytes-hex_text bs hb)))
