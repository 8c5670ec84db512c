-- ===== src/Encoding/Base64/RoundTrip.antt =====
-- `decode` behind `encode`, and the read behind the end of the input.

use cppnet.Prelude.{
  All, IsByte, List, length, refl, some, true, ℕ, ◌%◌, ◌<◌, ◌^◌, ◌∙◌, ◌≡◌, Bool-cases, [], arith,
  inl, inr, ◌∷◌,
}
use cppnet.Prelude.Memory.{Run, ◌>>=◌, done, fault}
use cppnet.Encoding.Base64.{Encoding, has_padding, Span, decode, encode}
use cppnet.Encoding.Base64.Text.{base64_text}
use cppnet.Encoding.Base64.Codec.{IsCodec}
use cppnet.Encoding.Base64.Triplets.{read_behind}
use cppnet.Encoding.Base64.Encode.{encode-base64_text}
use cppnet.Encoding.Base64.Decode.{decode-base64_text}

module _ (e : Encoding) where
  read_behind-done :
      {A : Type 0} (bs : List ℕ) (x : ℕ) (r : Run A) → (read_behind e bs (done x) >>= λ _. r) ≡ r
  read_behind-done [] x r = refl
  read_behind-done (a ∷ []) x r = elim (Bool-cases (has_padding e)) [
    | inl p ↦ rw p refl
    | inr p ↦ rw p refl
  ]
  read_behind-done (a ∷ b ∷ []) x r = elim (Bool-cases (has_padding e)) [
    | inl p ↦ rw p refl
    | inr p ↦ rw p refl
  ]
  read_behind-done (a ∷ b ∷ c ∷ bs) x r = read_behind-done bs x r

  read_behind-fault :
      {A : Type 0} (bs : List ℕ) (r : Run A)
      → has_padding e ≡ true
      → ¬ (length bs % 3 ≡ 0)
      → (read_behind e bs fault >>= λ _. r) ≡ fault
  read_behind-fault [] r p h = absurd (h refl)
  read_behind-fault (a ∷ []) r p h = rw p refl
  read_behind-fault (a ∷ b ∷ []) r p h = rw p refl
  read_behind-fault (a ∷ b ∷ c ∷ bs) r p h = read_behind-fault bs r p (omega arith)

-- For a well-formed encoding and fewer than 2^62 bytes, at least one of them where the encoding
-- pads: the text that `encode` writes is decoded to the bytes it was made from, if the place
-- behind the text can be read.
pub decode-encode-text :
    (e : Encoding) (bs : List ℕ) (x : ℕ)
    → IsCodec e
    → All IsByte bs
    → (has_padding e ≡ true → 0 < length bs)
    → length bs < 2 ^ 62
    → (encode e bs >>= λ text. decode e (record { chars = text; behind = done x })) ≡ done (some bs)
decode-encode-text e bs x ok hb h hs =
    let input : Span = record { chars = base64_text e bs; behind = done x } in
    rw (encode-base64_text e ok.full bs hb)
      (decode-base64_text e input bs ok hb h hs refl ∙ read_behind-done e bs x (done (some bs)))

-- For a well-formed encoding that pads and fewer than 2^62 bytes whose number is no multiple of
-- three: `decode` of the text that `encode` writes reads the char behind the end of the text, and
-- faults where that lies outside the buffer.
pub decode_reads_behind :
    (e : Encoding) (bs : List ℕ)
    → IsCodec e
    → has_padding e ≡ true
    → All IsByte bs
    → ¬ (length bs % 3 ≡ 0)
    → length bs < 2 ^ 62
    → (encode e bs >>= λ text. decode e (record { chars = text; behind = fault })) ≡ fault
decode_reads_behind e bs ok p hb h hs =
    let input : Span = record { chars = base64_text e bs; behind = fault } in
    let some_bytes : 0 < length bs = omega arith in
    rw (encode-base64_text e ok.full bs hb) (
      decode-base64_text e input bs ok hb (λ _. some_bytes) hs refl
      ∙ read_behind-fault e bs (done (some bs)) p h)
