-- ===== src/Encoding/Base64/Text.antt =====
-- The base64 text of some bytes, in plain arithmetic on groups of six bits, and its length.

use cppnet.Prelude.{
  ℕ, List, [], arith, get_elem?, if◌then◌else◌, length, none, replicate, some, ◌%◌, ◌*◌, ◌+◌, ◌/◌,
  ◌∷◌, ◌≡◌, Bool, Bool-cases, false, inl, inr, length-replicate, refl, suc, true,
}
use cppnet.Encoding.Base64.{Encoding, encoded_size, has_padding}

abbrev pub char_at : List ℕ → ℕ → ℕ
char_at cs v = elim (get_elem? cs v) [ some c ↦ c | none ↦ 0 ]

encoded_size-three : (n : ℕ) (p : Bool) → encoded_size (suc (suc (suc n))) p ≡ 4 + encoded_size n p
unfolding encoded_size
encoded_size-three n true = omega arith
encoded_size-three n false = omega arith

ends_0 : (p : Bool) → 0 ≡ encoded_size 0 p
unfolding encoded_size
ends_0 true = refl
ends_0 false = refl

ends_1 : (p : Bool) (n : ℕ) → n ≡ (if p then 2 else 0) → suc (suc n) ≡ encoded_size 1 p
unfolding encoded_size
ends_1 true n h = omega arith
ends_1 false n h = omega arith

ends_2 : (p : Bool) (n : ℕ) → n ≡ (if p then 1 else 0) → suc (suc (suc n)) ≡ encoded_size 2 p
unfolding encoded_size
ends_2 true n h = omega arith
ends_2 false n h = omega arith

module _ (e : Encoding) where
  -- `n` padding chars, if the encoding pads.
  abbrev pub pads : ℕ → List ℕ
  pads n = if has_padding e then replicate n e.padchar else []

  -- Three bytes are four groups of six bits. One or two bytes are filled up with zero bits.
  abbrev pub base64_text : List ℕ → List ℕ
  base64_text [] = []
  base64_text (a ∷ []) = char_at e.encoder (a / 4) ∷ char_at e.encoder (a % 4 * 16) ∷ pads 2
  base64_text (a ∷ b ∷ []) =
      char_at e.encoder (a / 4)
      ∷ char_at e.encoder (a % 4 * 16 + b / 16)
      ∷ char_at e.encoder (b % 16 * 4)
      ∷ pads 1
  base64_text (a ∷ b ∷ c ∷ bs) =
      char_at e.encoder (a / 4)
      ∷ char_at e.encoder (a % 4 * 16 + b / 16)
      ∷ char_at e.encoder (b % 16 * 4 + c / 64)
      ∷ char_at e.encoder (c % 64)
      ∷ base64_text bs

  pub length-pads : (n : ℕ) → length (pads n) ≡ (if has_padding e then n else 0)
  length-pads n = elim (Bool-cases (has_padding e)) [
    | inl p ↦ rw p (length-replicate n e.padchar)
    | inr p ↦ rw p refl
  ]

  -- `encoded_size` is the length of the text, with padding and without.
  pub length-base64_text :
      (bs : List ℕ) → length (base64_text bs) ≡ encoded_size (length bs) (has_padding e)
  unfolding encoded_size
  length-base64_text [] = ends_0 (has_padding e)
  length-base64_text (a ∷ []) = ends_1 (has_padding e) _ (length-pads 2)
  length-base64_text (a ∷ b ∷ []) = ends_2 (has_padding e) _ (length-pads 1)
  length-base64_text (a ∷ b ∷ c ∷ bs) =
      omega (arith, length-base64_text bs, encoded_size-three (length bs) (has_padding e))
