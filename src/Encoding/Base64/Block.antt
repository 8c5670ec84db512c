-- ===== src/Encoding/Base64/Block.antt =====
-- One block of a base64 text, as `decode_triplet` turns it into bytes.
use cppnet.Prelude.Bits.{bit_or_disjoint}
use cppnet.Prelude.Memory.{◌>>=◌, write, done, Run, fault, write-append}
use cppnet.Prelude.{
  ℕ, List, [], arith, bit_or, false, refl, replicate, true, ◌*◌, ◌+◌, ◌<◌, ◌^◌, ◌∷◌, ◌≡◌, Bool,
  if◌then◌else◌, leb, ltb, min, ◌%◌, ◌/◌, length, ◌++◌,
}
use cppnet.Encoding.Base64.{Encoding, Span, combine4, scan, decode_triplet}

combine4_sum :
    (a b c d : ℕ) → b < 64 → c < 64 → d < 64 → combine4 a b c d ≡ a * 262144 + b * 4096 + c * 64 + d
combine4_sum a b c d hb hc hd =
    let two : bit_or (a * 2 ^ 18) (b * 2 ^ 12) ≡ (a * 64 + b) * 2 ^ 12 =
      omega (arith, bit_or_disjoint 18 a (b * 2 ^ 12) (omega arith)) in
    let three : bit_or (bit_or (a * 2 ^ 18) (b * 2 ^ 12)) (c * 2 ^ 6)
        ≡ ((a * 64 + b) * 64 + c) * 2 ^ 6 =
      rw two (omega (arith, bit_or_disjoint 12 (a * 64 + b) (c * 2 ^ 6) (omega arith))) in
    rw three (omega (arith, bit_or_disjoint 6 ((a * 64 + b) * 64 + c) d hd))

-- What `decode_triplet` writes once the scan has reached `lookahead`.
pub store : List ℕ → ℕ → ℕ → ℕ → Run (Bool × List ℕ)
store out at combined buflen = do
  out₂ ← if leb 4 buflen then write out (at + 2) (combined % 256) else done out
  out₁ ← if leb 3 buflen then write out₂ (at + 1) (combined / 2 ^ 8 % 256) else done out₂
  out₀ ← if leb 2 buflen then write out₁ (at + 0) (combined / 2 ^ 16 % 256) else done out₁
  done (true, out₀)

-- Three bytes, two, and one, from the groups of six bits that `base64_text` splits them into.
pub store_three :
    (got after : List ℕ) (o₀ o₁ o₂ a b c at : ℕ)
    → at ≡ length got
    → a < 256
    → b < 256
    → c < 256
    → store
        (got ++ (o₀ ∷ o₁ ∷ o₂ ∷ after))
        at
        (combine4 (a / 4) (a % 4 * 16 + b / 16) (b % 16 * 4 + c / 64) (c % 64))
        4
      ≡ done (true, got ++ (a ∷ b ∷ c ∷ after))
unfolding store
store_three got after o₀ o₁ o₂ a b c at hat ha hb hc =
    let n = combine4 (a / 4) (a % 4 * 16 + b / 16) (b % 16 * 4 + c / 64) (c % 64) in
    let sum : n ≡ a * 65536 + b * 256 + c = omega (
      arith,
      combine4_sum (a / 4) (a % 4 * 16 + b / 16) (b % 16 * 4 + c / 64) (c % 64) (omega arith)
          (omega arith) (omega arith),
    ) in
    let e₀ : n % 256 ≡ c = omega (arith, sum) in
    let e₁ : n / 2 ^ 8 % 256 ≡ b = omega (arith, sum) in
    let e₂ : n / 2 ^ 16 % 256 ≡ a = omega (arith, sum) in
    rw
      (
        e₀,
        write-append got (o₀ ∷ o₁ ∷ o₂ ∷ after) (at + 2) 2 c (omega arith) (omega arith),
        e₁,
        write-append got (o₀ ∷ o₁ ∷ c ∷ after) (at + 1) 1 b (omega arith) (omega arith),
        e₂,
        write-append got (o₀ ∷ b ∷ c ∷ after) (at + 0) 0 a (omega arith) (omega arith),
      )
      refl

pub store_two :
    (got after : List ℕ) (o₀ o₁ a b at : ℕ)
    → at ≡ length got
    → a < 256
    → b < 256
    → store (got ++ (o₀ ∷ o₁ ∷ after)) at (combine4 (a / 4) (a % 4 * 16 + b / 16) (b % 16 * 4) 0) 3
      ≡ done (true, got ++ (a ∷ b ∷ after))
unfolding store
store_two got after o₀ o₁ a b at hat ha hb =
    let n = combine4 (a / 4) (a % 4 * 16 + b / 16) (b % 16 * 4) 0 in
    let sum : n ≡ a * 65536 + b * 256 = omega (
      arith,
      combine4_sum (a / 4) (a % 4 * 16 + b / 16) (b % 16 * 4) 0 (omega arith) (omega arith)
          (omega arith),
    ) in
    let e₁ : n / 2 ^ 8 % 256 ≡ b = omega (arith, sum) in
    let e₂ : n / 2 ^ 16 % 256 ≡ a = omega (arith, sum) in
    rw
      (
        e₁,
        write-append got (o₀ ∷ o₁ ∷ after) (at + 1) 1 b (omega arith) (omega arith),
        e₂,
        write-append got (o₀ ∷ b ∷ after) (at + 0) 0 a (omega arith) (omega arith),
      )
      refl

pub store_one :
    (got after : List ℕ) (o₀ a at : ℕ)
    → at ≡ length got
    → a < 256
    → store (got ++ (o₀ ∷ after)) at (combine4 (a / 4) (a % 4 * 16) 0 0) 2
      ≡ done (true, got ++ (a ∷ after))
unfolding store
store_one got after o₀ a at hat ha =
    let n = combine4 (a / 4) (a % 4 * 16) 0 0 in
    let sum : n ≡ a * 65536 =
      omega
        (arith, combine4_sum (a / 4) (a % 4 * 16) 0 0 (omega arith) (omega arith) (omega arith)) in
    let e₂ : n / 2 ^ 16 % 256 ≡ a = omega (arith, sum) in
    rw (e₂, write-append got (o₀ ∷ after) (at + 0) 0 a (omega arith) (omega arith)) refl

module _ (e : Encoding) where
  pub decode_triplet-store :
      (out : List ℕ) (at : ℕ) (input : Span) (from remaining look v₀ v₁ v₂ v₃ buflen : ℕ)
      (r : Run ℕ)
      → min remaining 4 ≡ look
      → scan e look input from 0 (replicate 4 0) 0
        ≡ (r >>= λ _. done (look, v₀ ∷ v₁ ∷ v₂ ∷ v₃ ∷ [], buflen))
      → decode_triplet e out at input from remaining
        ≡ (r >>= λ _. store out at (combine4 v₀ v₁ v₂ v₃) buflen)
  unfolding decode_triplet store
  decode_triplet-store out at input from remaining look v₀ v₁ v₂ v₃ buflen (done x) hm hs =
      let ends : ltb look look ≡ false = ground arith in rw (hm, hs, ends) refl
  decode_triplet-store out at input from remaining look v₀ v₁ v₂ v₃ buflen fault hm hs =
      rw (hm, hs) refl
