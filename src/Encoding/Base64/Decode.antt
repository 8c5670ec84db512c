-- ===== src/Encoding/Base64/Decode.antt =====
-- `decode` on the text that `encode` writes.

use cppnet.Prelude.Memory.{done, ◌>>=◌, >>=-done}
use cppnet.Prelude.{
  ℕ, List, [], arith, false, if◌then◌else◌, length, length-append, refl, true, ◌%◌, ◌*◌, ◌++◌, ◌+◌,
  ◌/◌, ◌∙◌, ◌∷◌, ◌≡◌, All, IsByte, some, Bool, append_assoc, suc, sym, zero, ◌≤◌, ap,
  length-replicate, ltb, replicate, ◌<◌, ◌^◌,
}
use cppnet.Encoding.Base64.Text.{base64_text, char_at, pads, length-pads}
use cppnet.Encoding.Base64.Codec.{IsCodec}
use cppnet.Encoding.Base64.Triplets.{read_behind, triplet_three, triplet_two, triplet_one}
use cppnet.Encoding.Base64.{Encoding, has_padding, Span, decode_blocks, decode}
use cppnet.Encoding.Base64.Output.{output_size-base64_text}
use cppnet.Encoding.Base64.Text.{char_at, pads, base64_text, length-pads}

module _ (e : Encoding) (ok : IsCodec e) where
  pads-le : (n : ℕ) → length (pads e n) ≤ n
  pads-le n = omega (arith, length-pads e n, fits (has_padding e))
    where
      fits : (b : Bool) → (if b then n else 0) ≤ n
      fits true = omega arith
      fits false = omega arith

  decode_blocks_lem :
      (n : ℕ) (input : Span) (past got old rest : List ℕ) (i j : ℕ)
      → n ≡ (length (base64_text e rest) + 3) / 4
      → input.chars ≡ past ++ base64_text e rest
      → i ≡ length past
      → j ≡ length got
      → length old ≡ length rest
      → All IsByte rest
      → decode_blocks e n (got ++ old) j input i
        ≡ (read_behind e rest input.behind >>= λ _. done (some (got ++ rest)))
  unfolding decode_blocks
  decode_blocks_lem n input past got [] [] i j hn hc hi hj ho hb =
      let none_left : n ≡ 0 = omega arith in rw none_left refl
  decode_blocks_lem n input past got (o₀ ∷ []) (a ∷ []) i j hn hc hi hj ho (ha, _) =
      let last : n ≡ 1 = omega (arith, pads-le 2) in
      rw (last, triplet_one e ok input past got [] o₀ a i j hc hi hj ha)
        (>>=-done (read_behind e (a ∷ []) input.behind) (true, got ++ (a ∷ [])) _)
  decode_blocks_lem n input past got (o₀ ∷ o₁ ∷ []) (a ∷ b ∷ []) i j hn hc hi hj ho (ha, (hb, _)) =
      let last : n ≡ 1 = omega (arith, pads-le 1) in
      rw (last, triplet_two e ok input past got [] o₀ o₁ a b i j hc hi hj ha hb)
        (>>=-done (read_behind e (a ∷ b ∷ []) input.behind) (true, got ++ (a ∷ b ∷ [])) _)
  decode_blocks_lem zero input past got old (a ∷ b ∷ c ∷ rest) i j hn hc hi hj ho hb =
      absurd (omega arith)
  decode_blocks_lem (suc n) input past got (o₀ ∷ o₁ ∷ o₂ ∷ old) (a ∷ b ∷ c ∷ rest) i j hn hc hi hj
        ho (ha, (hb, (hcc, hr))) =
      let chars : List ℕ =
        char_at e.encoder (a / 4)
        ∷ char_at e.encoder (a % 4 * 16 + b / 16)
        ∷ char_at e.encoder (b % 16 * 4 + c / 64)
        ∷ char_at e.encoder (c % 64)
        ∷ [] in
      let bytes : List ℕ = a ∷ b ∷ c ∷ [] in
      let ih =
        decode_blocks_lem n input (past ++ chars) (got ++ bytes) old rest (i + 4) (j + 3)
          (omega arith) (hc ∙ sym (append_assoc past chars (base64_text e rest)))
          (omega (arith, length-append past chars)) (omega (arith, length-append got bytes))
          (omega arith) hr in
      rw (triplet_three e ok input past got old rest o₀ o₁ o₂ a b c i j hc hi hj ha hb hcc)
        (rw (append_assoc got bytes old, append_assoc got bytes rest) at ih)
  decode_blocks_lem n input past got old rest i j hn hc hi hj ho hb = absurd (omega arith)

-- For a well-formed encoding and a text of fewer than 2^62 bytes, which is not empty where the
-- encoding pads: `decode` returns the bytes that the text was made from, after one read of the
-- place behind the input, if the text ends in padding.
pub decode-base64_text :
    (e : Encoding) (input : Span) (bs : List ℕ)
    → IsCodec e
    → All IsByte bs
    → (has_padding e ≡ true → 0 < length bs)
    → length bs < 2 ^ 62
    → input.chars ≡ base64_text e bs
    → decode e input ≡ (read_behind e bs input.behind >>= λ _. done (some bs))
unfolding decode
decode-base64_text e input bs ok hb h hs hc =
    let room : ltb (length bs) (2 ^ 63) ≡ true = ground arith in
    let blocks =
      decode_blocks_lem e ok ((length input.chars + 3) / 4) input [] [] (replicate (length bs) 0) bs
        0 0 (ap (λ cs. (length cs + 3) / 4) hc) hc refl refl (length-replicate (length bs) 0) hb in
    rw (output_size-base64_text e input bs ok hb h hs hc, room) blocks
