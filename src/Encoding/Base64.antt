-- ===== src/Encoding/Base64.antt =====
-- src/encoding/base64.cpp and include/encoding/base64.hpp. Bytes and chars are numbers below 256.
pub mod Text
pub mod Triplet
pub mod Encode
pub mod Codec
pub mod Scan
pub mod Block
pub mod Triplets
pub mod Output
pub mod Decode
pub mod RoundTrip
use cppnet.Prelude.{
  ℕ, Bool, List, [], bit_and, bit_or, codes, if◌then◌else◌, length, ltb, not, replicate, suc, zero,
  ◌*◌, ◌+◌, ◌-◌, ◌/◌, ◌==◌, ◌^◌, ◌∷◌, Option, drop, false, leb, min, none, some, true, ◌%◌,
}
use cppnet.Prelude.Memory.{Run, ◌>>=◌, read, write, done, fault}

abbrev pub standard_alphabet : List ℕ
standard_alphabet = codes "ABCDEFGHIJKLMNOPQRSTUVWXYZabcdefghijklmnopqrstuvwxyz0123456789+/"

abbrev pub url_alphabet : List ℕ
url_alphabet = codes "ABCDEFGHIJKLMNOPQRSTUVWXYZabcdefghijklmnopqrstuvwxyz0123456789-_"

-- The free functions of the header.
pub encoded_size : ℕ → Bool → ℕ
encoded_size input_size padding =
    if padding then (input_size + 2) / 3 * 4 else (input_size * 8 + 5) / 6

pub decoded_size : ℕ → Bool → ℕ
decoded_size input_size padding = if padding then input_size / 4 * 3 else input_size * 6 / 8

-- `0xff` in the decoder: no char of the alphabet.
abbrev pub invalid : ℕ
invalid = 0xff

-- A char of 128 or above is negative, and as an index lies outside the map.
abbrev index_of_char : ℕ → ℕ
index_of_char c = if ltb c 128 then c else 2 ^ 64 + c - 256

-- The loop of `build_decoder`, at the chars from `alphabet[i]` on.
fill_decoder : List ℕ → ℕ → List ℕ → Run (List ℕ)
fill_decoder [] i out = done out
fill_decoder (c ∷ cs) i out = do out' ← write out (index_of_char c) i; fill_decoder cs (i + 1) out'

-- `build_decoder` without its cache, which returns what an earlier call computed.
pub build_decoder : List ℕ → Run (List ℕ)
unfolding fill_decoder
build_decoder alphabet = fill_decoder alphabet 0 (replicate 256 invalid)

pub record Encoding : Type 0 where
  pub encoder : List ℕ
  pub decoder : List ℕ
  pub padchar : ℕ

-- The constructor. A `padchar` of 0 disables padding.
pub make : List ℕ → ℕ → Run Encoding
unfolding build_decoder
make alphabet padchar = do
  decoder ← build_decoder alphabet
  done (record { encoder = alphabet; decoder = decoder; padchar = padchar })

abbrev pub has_padding : Encoding → Bool
has_padding e = not (e.padchar == 0)

-- `data[0] << 16 | data[1] << 8 | data[2] << 0`
abbrev pub combine3 : ℕ → ℕ → ℕ → ℕ
combine3 a b c = bit_or (bit_or (a * 2 ^ 16) (b * 2 ^ 8)) c

module _ (e : Encoding) where
  abbrev symbol : ℕ → ℕ → Run ℕ
  symbol combined shift = read e.encoder (bit_and (combined / 2 ^ shift) 0x3f)

  -- Writes four chars to `out` from `at` on, for the three bytes of `input` from `from` on.
  pub encode_triplet : List ℕ → ℕ → List ℕ → ℕ → Run (List ℕ)
  encode_triplet out at input from = do
    d₀ ← read input (from + 0)
    d₁ ← read input (from + 1)
    d₂ ← read input (from + 2)
    let combined = combine3 d₀ d₁ d₂
    c₀ ← symbol combined 18
    out₀ ← write out (at + 0) c₀
    c₁ ← symbol combined 12
    out₁ ← write out₀ (at + 1) c₁
    c₂ ← symbol combined 6
    out₂ ← write out₁ (at + 2) c₂
    c₃ ← symbol combined 0
    write out₂ (at + 3) c₃

  -- The number of chars written, and `out`.
  pub encode_trailing : List ℕ → ℕ → List ℕ → ℕ → ℕ → Run (ℕ × List ℕ)
  encode_trailing out at input from remaining =
      if remaining == 1
      then (do
        d₀ ← read input (from + 0)
        let combined = d₀ * 2 ^ 16
        c₀ ← symbol combined 18
        out₀ ← write out (at + 0) c₀
        c₁ ← symbol combined 12
        out₁ ← write out₀ (at + 1) c₁
        done (2, out₁))
      else if remaining == 2
      then (do
        d₀ ← read input (from + 0)
        d₁ ← read input (from + 1)
        let combined = bit_or (d₀ * 2 ^ 16) (d₁ * 2 ^ 8)
        c₀ ← symbol combined 18
        out₀ ← write out (at + 0) c₀
        c₁ ← symbol combined 12
        out₁ ← write out₀ (at + 1) c₁
        c₂ ← symbol combined 6
        out₂ ← write out₁ (at + 2) c₂
        done (3, out₂))
      else done (0, out)

  -- The loop over whole blocks, with `n` blocks left; the two indices at its end, and `out`.
  encode_blocks : ℕ → List ℕ → ℕ → List ℕ → ℕ → Run (ℕ × ℕ × List ℕ)
  encode_blocks zero out out_i input in_i = done (out_i, in_i, out)
  encode_blocks (suc n) out out_i input in_i = do
    out' ← encode_triplet out out_i input in_i
    encode_blocks n out' (out_i + 4) input (in_i + 3)

  -- `for (auto i = out_i + wrote; i < out.size(); ++i) out[i] = padchar;` with `n` rounds left.
  pad_rest : ℕ → List ℕ → ℕ → Run (List ℕ)
  pad_rest zero out i = done out
  pad_rest (suc n) out i = do out' ← write out i e.padchar; pad_rest n out' (i + 1)

  -- What `encode` does behind its loop, whose two indices and output it is given.
  encode_rest : List ℕ → ℕ × ℕ × List ℕ → Run (List ℕ)
  unfolding encode_trailing pad_rest
  encode_rest input b = do
    t ← encode_trailing b.2 b.0 input b.1 (length input - b.1)
    if has_padding e then pad_rest (length t.1 - (b.0 + t.0)) t.1 (b.0 + t.0) else done t.1

  pub encode : List ℕ → Run (List ℕ)
  unfolding encode_triplet encode_blocks encode_rest encoded_size
  encode input =
      let size = length input in
      let out = replicate (encoded_size size (has_padding e)) e.padchar in
      encode_blocks (size / 3) out 0 input 0 >>= encode_rest input

-- A `std::span<const char>`, with what a read of the place just behind it gives: a char where the
-- span stands inside a larger buffer, and a fault where it does not.
pub record Span : Type 0 where
  pub chars : List ℕ
  pub behind : Run ℕ

-- `data[i]`
pub span_at : Span → ℕ → Run ℕ
span_at s i = if i == length s.chars then s.behind else read s.chars i

-- `std::vector<std::byte> out(n)`: above `max_size()` it throws, which ends a `noexcept` function.
abbrev pub allocate : ℕ → Run (List ℕ)
allocate n = if ltb n (2 ^ 63) then done (replicate n 0) else fault

abbrev pub count : ℕ → List ℕ → ℕ
count c [] = 0
count c (x ∷ xs) = (if x == c then 1 else 0) + count c xs

-- `data[i0] << 18 | data[i1] << 12 | data[i2] << 6 | data[i3] << 0`
abbrev pub combine4 : ℕ → ℕ → ℕ → ℕ → ℕ
combine4 a b c d = bit_or (bit_or (bit_or (a * 2 ^ 18) (b * 2 ^ 12)) (c * 2 ^ 6)) d

module _ (e : Encoding) where
  -- The inner loop over padding, with `n` chars left up to `lookahead`: the new `i`.
  pub skip_padding : ℕ → Span → ℕ → ℕ → ℕ → Run ℕ
  skip_padding zero input from i c = done i
  skip_padding (suc n) input from i c =
      let rest : Run ℕ = (do
        c' ← span_at input (from + (i + 1))
        skip_padding n input from (i + 1) c') in
      if c == e.padchar then rest else done i

  -- The loop over at most four chars, with `n` left: `i`, `buf` and `buflen` at its end.
  pub scan : ℕ → Span → ℕ → ℕ → List ℕ → ℕ → Run (ℕ × List ℕ × ℕ)
  unfolding skip_padding span_at
  scan zero input from i buf buflen = done (i, buf, buflen)
  scan (suc n) input from i buf buflen = do
    c ← span_at input (from + i)
    dec ← read e.decoder (index_of_char c)
    if dec == invalid
        then (if has_padding e
            then (skip_padding (suc n) input from i c >>= λ i'. done (i', buf, buflen))
            else done (i, buf, buflen))
        else (do buf' ← write buf i dec; scan n input from (i + 1) buf' (buflen + 1))

  -- Whether the chars of `input` from `from` on were valid, and `out`.
  pub decode_triplet : List ℕ → ℕ → Span → ℕ → ℕ → Run (Bool × List ℕ)
  unfolding scan
  decode_triplet out at input from remaining =
      let lookahead = min remaining 4 in
      do
        s ← scan lookahead input from 0 (replicate 4 0) 0
        b₀ ← read s.1 0
        b₁ ← read s.1 1
        b₂ ← read s.1 2
        b₃ ← read s.1 3
        let combined = combine4 b₀ b₁ b₂ b₃
        if ltb s.0 lookahead then done (false, out) else (do
          out₂ ← if leb 4 s.2 then write out (at + 2) (combined % 256) else done out
          out₁ ← if leb 3 s.2 then write out₂ (at + 1) (combined / 2 ^ 8 % 256) else done out₂
          out₀ ← if leb 2 s.2 then write out₁ (at + 0) (combined / 2 ^ 16 % 256) else done out₁
          done (true, out₀))

  -- The loop over blocks of four chars, with `n` blocks left.
  decode_blocks : ℕ → List ℕ → ℕ → Span → ℕ → Run (Option (List ℕ))
  decode_blocks zero out out_i input in_i = done (some out)
  decode_blocks (suc n) out out_i input in_i = do
    r ← decode_triplet out out_i input in_i (length input.chars - in_i)
    if r.0 then decode_blocks n r.1 (out_i + 3) input (in_i + 4) else done none

  -- The size of the output: `data.last(2)` wants two chars, and the subtraction wraps.
  pub output_size : Span → Run ℕ
  unfolding decoded_size
  output_size input =
      let size = length input.chars in
      let out_size = decoded_size size (has_padding e) in
      if has_padding e
      then (if ltb size 2
          then fault
          else done ((2 ^ 64 + out_size - count e.padchar (drop (size - 2) input.chars)) % 2 ^ 64))
      else done out_size

  pub decode : Span → Run (Option (List ℕ))
  unfolding decode_triplet decode_blocks output_size
  decode input = do
    out_size ← output_size input
    out ← allocate out_size
    decode_blocks ((length input.chars + 3) / 4) out 0 input 0
