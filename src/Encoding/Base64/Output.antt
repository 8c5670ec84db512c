-- ===== src/Encoding/Base64/Output.antt =====
-- The size that `decode` gives its output for a base64 text is the number of bytes.

use cppnet.Prelude.Memory.{Run, done}
use cppnet.Prelude.{
  ℕ, ==_iff, ==_refl, All, Bool-cases, IsByte, List, [], ap, arith, drop, false, inl, inr, length,
  refl, suc, sym, true, ◌%◌, ◌*◌, ◌+◌, ◌-◌, ◌/◌, ◌<◌, ◌==◌, ◌∙◌, ◌∷◌, ◌≡◌, ◌≤◌, ◌^◌, ltb,
}
use cppnet.Encoding.Base64.{
  Encoding, invalid, has_padding, count, output_size, Span, decoded_size, encoded_size,
}
use cppnet.Encoding.Base64.Text.{base64_text, char_at, length-base64_text}
use cppnet.Encoding.Base64.Codec.{IsCodec}

done-injective : (a b : ℕ) → ◌≡◌ {A = Run ℕ} (done a) (done b) → a ≡ b
done-injective a b h = cc

module _ (e : Encoding) (ok : IsCodec e) (p : has_padding e ≡ true) where
  -- The padding char is no char of the alphabet.
  symbol-ne-pad : (v : ℕ) → v < 64 → (char_at e.encoder v == e.padchar) ≡ false
  symbol-ne-pad v hv = elim (Bool-cases (char_at e.encoder v == e.padchar)) [
    | inl same ↦
        let at_pad = rw ((==_iff _ _).0 same) at (ok.reads v hv) in
        absurd (omega (arith, done-injective v invalid (sym at_pad ∙ ok.pad_reads p)))
    | inr other ↦ other
  ]

  drop_block :
      (s₀ s₁ s₂ s₃ : ℕ) (text : List ℕ)
      → 2 ≤ length text
      → drop (length (s₀ ∷ s₁ ∷ s₂ ∷ s₃ ∷ text) - 2) (s₀ ∷ s₁ ∷ s₂ ∷ s₃ ∷ text)
        ≡ drop (length text - 2) text
  drop_block s₀ s₁ s₂ s₃ text h =
      let n = length text - 2 in
      let e : length (s₀ ∷ s₁ ∷ s₂ ∷ s₃ ∷ text) - 2 ≡ suc (suc (suc (suc n))) = omega arith in
      ap (λ k. drop k (s₀ ∷ s₁ ∷ s₂ ∷ s₃ ∷ text)) e

  text_long : (b : ℕ) (bs : List ℕ) → 2 ≤ length (base64_text e (b ∷ bs))
  text_long b [] = omega arith
  text_long b (c ∷ []) = omega arith
  text_long b (c ∷ d ∷ bs) = omega arith

  -- The last two chars of the text hold a padding char for each byte that the last block lacks.
  count_last :
      (bs : List ℕ)
      → All IsByte bs
      → 0 < length bs
      → count e.padchar (drop (length (base64_text e bs) - 2) (base64_text e bs)) + length bs
        ≡ (length bs + 2) / 3 * 3
  count_last [] hb h = absurd (omega arith)
  count_last (a ∷ []) hb h = rw (p, ==_refl e.padchar) refl
  count_last (a ∷ b ∷ []) (ha, (hb, _)) h =
      rw (p, ==_refl e.padchar, symbol-ne-pad (b % 16 * 4) (omega arith)) refl
  count_last (a ∷ b ∷ c ∷ []) (ha, (hb, (hc, _))) h =
      rw (symbol-ne-pad (c % 64) (omega arith), symbol-ne-pad (b % 16 * 4 + c / 64) (omega arith))
        refl
  count_last (a ∷ b ∷ c ∷ d ∷ bs) (ha, (hb, (hc, hr))) h =
      let text = base64_text e (d ∷ bs) in
      let same =
        drop_block (char_at e.encoder (a / 4)) (char_at e.encoder (a % 4 * 16 + b / 16))
          (char_at e.encoder (b % 16 * 4 + c / 64)) (char_at e.encoder (c % 64)) text
          (text_long d bs) in
      let rest = count_last (d ∷ bs) hr (omega arith) in rw same (omega arith)

  output_size-padded :
      (input : Span) (bs : List ℕ)
      → All IsByte bs
      → 0 < length bs
      → length bs < 2 ^ 62
      → input.chars ≡ base64_text e bs
      → output_size e input ≡ done (length bs)
  unfolding output_size decoded_size
  output_size-padded input bs hb h hs hc =
      let n = length (base64_text e bs) in
      let k = count e.padchar (drop (n - 2) (base64_text e bs)) in
      let sum : k + length bs ≡ (length bs + 2) / 3 * 3 = count_last bs hb h in
      let whole : n ≡ (length bs + 2) / 3 * 4 =
        length-base64_text e bs ∙ unfold encoded_size in rw p refl in
      let two : ltb n 2 ≡ false = ground arith in
      let out : (2 ^ 64 + n / 4 * 3 - k) % 2 ^ 64 ≡ length bs = omega arith in
      rw (hc, p, two) (ap done out)

pub output_size-base64_text :
    (e : Encoding) (input : Span) (bs : List ℕ)
    → IsCodec e
    → All IsByte bs
    → (has_padding e ≡ true → 0 < length bs)
    → length bs < 2 ^ 62
    → input.chars ≡ base64_text e bs
    → output_size e input ≡ done (length bs)
unfolding output_size decoded_size
output_size-base64_text e input bs ok hb h hs hc = elim (Bool-cases (has_padding e)) [
  | inl p ↦ output_size-padded e ok p input bs hb (h p) hs hc
  | inr p ↦
      let n = length (base64_text e bs) in
      let whole : n ≡ (length bs * 8 + 5) / 6 =
        length-base64_text e bs ∙ unfold encoded_size in rw p refl in
      let out : n * 6 / 8 ≡ length bs = omega arith in rw (hc, p) (ap done out)
]
