-- ===== src/Encoding/Base64/Encode.antt =====
-- `encode` writes the base64 text of the bytes, inside its buffer.
use cppnet.Prelude.Bits.{bit_or_disjoint}
use cppnet.Prelude.{
  ℕ, length, ◌%◌, ◌*◌, ◌+◌, ◌/◌, ◌<◌, ◌^◌, ◌≡◌, List, [], arith, bit_or, refl, suc, zero, ◌∙◌, ◌∷◌,
  ◌++◌, Bool-cases, ap, append_assoc, if◌then◌else◌, inl, inr, length-append, length-replicate,
  replicate, ◌-◌, All, IsByte, nil_of_length, sym,
}
use cppnet.Prelude.Memory.{done, read-behind, write-append, ◌>>=◌}
use cppnet.Encoding.Base64.{
  Encoding, has_padding, pad_rest, encode_trailing, encode_rest, encoded_size, encode_blocks,
  encode,
}
use cppnet.Encoding.Base64.Text.{char_at, pads, base64_text, length-base64_text}
use cppnet.Encoding.Base64.Triplet.{symbol_lem, encode_triplet_lem}

module _ (e : Encoding) (full : length e.encoder ≡ 64) where
  pad_rest_lem :
      (n i : ℕ) (before old : List ℕ)
      → n ≡ length old
      → i ≡ length before
      → pad_rest e n (before ++ old) i ≡ done (before ++ replicate n e.padchar)
  unfolding pad_rest
  pad_rest_lem zero i before [] hn hi = refl
  pad_rest_lem zero i before (o ∷ old) hn hi = absurd (omega arith)
  pad_rest_lem (suc n) i before [] hn hi = absurd (omega arith)
  pad_rest_lem (suc n) i before (o ∷ old) hn hi =
      let one : List ℕ = e.padchar ∷ [] in
      rw (write-append before (o ∷ old) i 0 e.padchar (omega arith) (omega arith)) (
        rw (← append_assoc before one old) (
          pad_rest_lem n (i + 1) (before ++ one) old (omega arith)
            (omega (arith, length-append before one))
          ∙ ap done (append_assoc before one (replicate n e.padchar))))

  -- The end of `encode`, which fills what is left of `out` with `m` padding chars.
  pads_lem :
      (m i : ℕ) (before old : List ℕ)
      → length old ≡ length (pads e m)
      → i ≡ length before
      → (if has_padding e
          then pad_rest e (length (before ++ old) - i) (before ++ old) i
          else done (before ++ old))
        ≡ done (before ++ pads e m)
  pads_lem m i before old ho hi = elim (Bool-cases (has_padding e)) [
    | inl p ↦
        let n : length old ≡ m = (rw p at ho) ∙ length-replicate m e.padchar in
        let total : length (before ++ old) - i ≡ m = omega (arith, length-append before old) in
        rw (p, total) (pad_rest_lem m i before old (sym n) hi)
    | inr p ↦ rw (p, nil_of_length old (rw p at ho)) refl
  ]

  pads_none : pads e 0 ≡ []
  pads_none = ground arith

  encode_rest_lem :
      (before old past rest : List ℕ) (i j : ℕ)
      → length rest < 3
      → All IsByte rest
      → length old ≡ length (base64_text e rest)
      → i ≡ length before
      → j ≡ length past
      → encode_rest e (past ++ rest) (i, j, before ++ old) ≡ done (before ++ base64_text e rest)
  unfolding encode_rest encode_trailing
  encode_rest_lem before old past [] i j hr hb ho hi hj =
      let total : length (past ++ []) - j ≡ 0 = omega (arith, length-append past []) in
      rw total (
        pads_lem 0 (i + 0) before old (rw pads_none ho) (omega arith)
        ∙ ap (λ t. done (before ++ t)) pads_none)
  encode_rest_lem before (o₀ ∷ o₁ ∷ old) past (a ∷ []) i j hr hb ho hi hj =
      let total : length (past ++ (a ∷ [])) - j ≡ 1 = omega (arith, length-append past (a ∷ [])) in
      let s₀ = char_at e.encoder (a / 4) in
      let s₁ = char_at e.encoder (a % 4 * 16) in
      let front : List ℕ = s₀ ∷ s₁ ∷ [] in
      rw
        (
          total,
          read-behind past (a ∷ []) (j + 0) 0 (omega arith),
          symbol_lem e full (a * 2 ^ 16) 18 (a / 4) (omega (arith, hb)),
          write-append before (o₀ ∷ o₁ ∷ old) (i + 0) 0 s₀ (omega arith) (omega arith),
          symbol_lem e full (a * 2 ^ 16) 12 (a % 4 * 16) (omega (arith, hb)),
          write-append before (s₀ ∷ o₁ ∷ old) (i + 1) 1 s₁ (omega arith) (omega arith),
        )
        (rw (← append_assoc before front old) (
          pads_lem 2 (i + 2) (before ++ front) old (omega arith)
            (omega (arith, length-append before front))
          ∙ ap done (append_assoc before front (pads e 2))))
  encode_rest_lem before (o₀ ∷ o₁ ∷ o₂ ∷ old) past (a ∷ b ∷ []) i j hr (ha, (hb, _)) ho hi hj =
      let total : length (past ++ (a ∷ b ∷ [])) - j ≡ 2 =
        omega (arith, length-append past (a ∷ b ∷ [])) in
      let n = bit_or (a * 2 ^ 16) (b * 2 ^ 8) in
      let sum : n ≡ a * 65536 + b * 256 =
        omega (arith, bit_or_disjoint 16 a (b * 2 ^ 8) (omega arith)) in
      let v₁ = a % 4 * 16 + b / 16 in
      let s₀ = char_at e.encoder (a / 4) in
      let s₁ = char_at e.encoder v₁ in
      let s₂ = char_at e.encoder (b % 16 * 4) in
      let front : List ℕ = s₀ ∷ s₁ ∷ s₂ ∷ [] in
      rw
        (
          total,
          read-behind past (a ∷ b ∷ []) (j + 0) 0 (omega arith),
          read-behind past (a ∷ b ∷ []) (j + 1) 1 (omega arith),
          symbol_lem e full n 18 (a / 4) (omega (arith, sum)),
          write-append before (o₀ ∷ o₁ ∷ o₂ ∷ old) (i + 0) 0 s₀ (omega arith) (omega arith),
          symbol_lem e full n 12 v₁ (omega (arith, sum)),
          write-append before (s₀ ∷ o₁ ∷ o₂ ∷ old) (i + 1) 1 s₁ (omega arith) (omega arith),
          symbol_lem e full n 6 (b % 16 * 4) (omega (arith, sum)),
          write-append before (s₀ ∷ s₁ ∷ o₂ ∷ old) (i + 2) 2 s₂ (omega arith) (omega arith),
        )
        (rw (← append_assoc before front old) (
          pads_lem 1 (i + 3) (before ++ front) old (omega arith)
            (omega (arith, length-append before front))
          ∙ ap done (append_assoc before front (pads e 1))))
  encode_rest_lem before [] past (a ∷ []) i j hr hb ho hi hj = absurd (omega arith)
  encode_rest_lem before (o₀ ∷ []) past (a ∷ []) i j hr hb ho hi hj = absurd (omega arith)
  encode_rest_lem before [] past (a ∷ b ∷ []) i j hr hb ho hi hj = absurd (omega arith)
  encode_rest_lem before (o₀ ∷ []) past (a ∷ b ∷ []) i j hr hb ho hi hj = absurd (omega arith)
  encode_rest_lem before (o₀ ∷ o₁ ∷ []) past (a ∷ b ∷ []) i j hr hb ho hi hj = absurd (omega arith)
  encode_rest_lem before old past (a ∷ b ∷ c ∷ rest) i j hr hb ho hi hj = absurd (omega arith)

  encode_blocks_lem :
      (n : ℕ) (before old past rest : List ℕ) (i j : ℕ)
      → n ≡ length rest / 3
      → All IsByte rest
      → length old ≡ length (base64_text e rest)
      → i ≡ length before
      → j ≡ length past
      → (encode_blocks e n (before ++ old) i (past ++ rest) j >>= encode_rest e (past ++ rest))
        ≡ done (before ++ base64_text e rest)
  unfolding encode_blocks
  encode_blocks_lem zero before old past rest i j hn hb ho hi hj =
      encode_rest_lem before old past rest i j (omega arith) hb ho hi hj
  encode_blocks_lem (suc n) before (o₀ ∷ o₁ ∷ o₂ ∷ o₃ ∷ old) past (a ∷ b ∷ c ∷ rest) i j hn
        (ha, (hb, (hc, hr))) ho hi hj =
      let block : List ℕ = a ∷ b ∷ c ∷ [] in
      let chars : List ℕ =
        char_at e.encoder (a / 4)
        ∷ char_at e.encoder (a % 4 * 16 + b / 16)
        ∷ char_at e.encoder (b % 16 * 4 + c / 64)
        ∷ char_at e.encoder (c % 64)
        ∷ [] in
      rw (encode_triplet_lem e full before old past rest o₀ o₁ o₂ o₃ a b c i j hi hj ha hb hc) (
        rw (← append_assoc before chars old, ← append_assoc past block rest)
          (encode_blocks_lem n (before ++ chars) old (past ++ block) rest (i + 4) (j + 3)
              (omega arith) hr (omega arith) (omega (arith, length-append before chars))
              (omega (arith, length-append past block))
            ∙ ap done (append_assoc before chars (base64_text e rest))))
  encode_blocks_lem (suc n) before old past [] i j hn hb ho hi hj = absurd (omega arith)
  encode_blocks_lem (suc n) before old past (a ∷ []) i j hn hb ho hi hj = absurd (omega arith)
  encode_blocks_lem (suc n) before old past (a ∷ b ∷ []) i j hn hb ho hi hj = absurd (omega arith)
  encode_blocks_lem (suc n) before [] past (a ∷ b ∷ c ∷ rest) i j hn hb ho hi hj =
      absurd (omega arith)
  encode_blocks_lem (suc n) before (_ ∷ []) past (a ∷ b ∷ c ∷ rest) i j hn hb ho hi hj =
      absurd (omega arith)
  encode_blocks_lem (suc n) before (_ ∷ _ ∷ []) past (a ∷ b ∷ c ∷ rest) i j hn hb ho hi hj =
      absurd (omega arith)
  encode_blocks_lem (suc n) before (_ ∷ _ ∷ _ ∷ []) past (a ∷ b ∷ c ∷ rest) i j hn hb ho hi hj =
      absurd (omega arith)

  -- With an alphabet of 64 chars `encode` stays inside its buffer, whose size `encoded_size` gives,
  -- and writes the base64 text of the bytes: groups of six bits, filled up with padding.
  pub encode-base64_text : (bs : List ℕ) → All IsByte bs → encode e bs ≡ done (base64_text e bs)
  unfolding encode
  encode-base64_text bs h =
      encode_blocks_lem (length bs / 3) [] _ [] bs 0 0 refl h
        (length-replicate (encoded_size (length bs) (has_padding e)) e.padchar
          ∙ sym (length-base64_text e bs))
        refl refl
