-- ===== src/Encoding/Base64/Triplet.antt =====
-- The four chars that `encode_triplet` writes for three bytes.
use cppnet.Prelude.Bits.{bit_or_disjoint, bit_and_63}
use cppnet.Prelude.{
  ℕ, length, ◌%◌, ◌*◌, ◌+◌, ◌/◌, ◌<◌, ◌^◌, ◌≡◌, List, [], arith, bit_and, bit_or, refl, suc, zero,
  ◌∙◌, ◌∷◌, ◌++◌,
}
use cppnet.Prelude.Memory.{done, read, read-behind, write-append}
use cppnet.Encoding.Base64.{Encoding, combine3, symbol, encode_triplet}
use native.Mathlib.Nat.{mod-lt}
use cppnet.Encoding.Base64.Text.{char_at}

pub combine3_sum : (a b c : ℕ) → b < 256 → c < 256 → combine3 a b c ≡ a * 65536 + b * 256 + c
combine3_sum a b c hb hc =
    let pair : bit_or (a * 2 ^ 16) (b * 2 ^ 8) ≡ (a * 256 + b) * 2 ^ 8 =
      omega (arith, bit_or_disjoint 16 a (b * 2 ^ 8) (omega arith)) in
    rw pair (omega (arith, bit_or_disjoint 8 (a * 256 + b) c hc))

pub read-char_at : (cs : List ℕ) (v : ℕ) → v < length cs → read cs v ≡ done (char_at cs v)
read-char_at [] v h = absurd (omega arith)
read-char_at (c ∷ cs) zero h = refl
read-char_at (c ∷ cs) (suc v) h = read-char_at cs v (omega arith)

module _ (e : Encoding) (full : length e.encoder ≡ 64) where
  pub symbol_lem : (n k v : ℕ) → n / 2 ^ k % 64 ≡ v → symbol e n k ≡ done (char_at e.encoder v)
  symbol_lem n k v h =
      let masked : bit_and (n / 2 ^ k) 0x3f ≡ v = bit_and_63 (n / 2 ^ k) ∙ h in
      rw masked
        (read-char_at e.encoder v (omega (arith, mod-lt (n / 2 ^ k) {m = 64} (omega arith))))

  pub encode_triplet_lem :
      (before after past rest : List ℕ) (o₀ o₁ o₂ o₃ a b c i j : ℕ)
      → i ≡ length before
      → j ≡ length past
      → a < 256
      → b < 256
      → c < 256
      → encode_triplet e (before ++ (o₀ ∷ o₁ ∷ o₂ ∷ o₃ ∷ after)) i (past ++ (a ∷ b ∷ c ∷ rest)) j
        ≡ done (
            before
            ++ (char_at e.encoder (a / 4)
                ∷ char_at e.encoder (a % 4 * 16 + b / 16)
                ∷ char_at e.encoder (b % 16 * 4 + c / 64)
                ∷ char_at e.encoder (c % 64)
                ∷ after))
  unfolding encode_triplet
  encode_triplet_lem before after past rest o₀ o₁ o₂ o₃ a b c i j hi hj ha hb hc =
      let n = combine3 a b c in
      let sum = combine3_sum a b c hb hc in
      let input : List ℕ = a ∷ b ∷ c ∷ rest in
      let s₀ = char_at e.encoder (a / 4) in
      let v₁ = a % 4 * 16 + b / 16 in
      let v₂ = b % 16 * 4 + c / 64 in
      let s₁ = char_at e.encoder v₁ in
      let s₂ = char_at e.encoder v₂ in
      let s₃ = char_at e.encoder (c % 64) in
      rw
        (
          read-behind past input (j + 0) 0 (omega arith),
          read-behind past input (j + 1) 1 (omega arith),
          read-behind past input (j + 2) 2 (omega arith),
          symbol_lem n 18 (a / 4) (omega (arith, sum)),
          write-append before (o₀ ∷ o₁ ∷ o₂ ∷ o₃ ∷ after) (i + 0) 0 s₀ (omega arith) (omega arith),
          symbol_lem n 12 v₁ (omega (arith, sum)),
          write-append before (s₀ ∷ o₁ ∷ o₂ ∷ o₃ ∷ after) (i + 1) 1 s₁ (omega arith) (omega arith),
          symbol_lem n 6 v₂ (omega (arith, sum)),
          write-append before (s₀ ∷ s₁ ∷ o₂ ∷ o₃ ∷ after) (i + 2) 2 s₂ (omega arith) (omega arith),
          symbol_lem n 0 (c % 64) (omega (arith, sum)),
          write-append before (s₀ ∷ s₁ ∷ s₂ ∷ o₃ ∷ after) (i + 3) 3 s₃ (omega arith) (omega arith),
        )
        refl
