-- ===== src/Encoding/Base64/Triplets.antt =====
-- `decode_triplet` on the blocks of a base64 text: whole ones, and a last one of one or two bytes.

use cppnet.Prelude.Memory.{read, read-behind, Run, done, ◌>>=◌}
use cppnet.Prelude.{
  ℕ, List, [], arith, false, if◌then◌else◌, length, length-append, min, refl, true, ◌%◌, ◌*◌, ◌++◌,
  ◌+◌, ◌-◌, ◌/◌, ◌<◌, ◌==◌, ◌∙◌, ◌∷◌, ◌≡◌, Bool-cases, ap, inl, inr,
}
use cppnet.Encoding.Base64.{Encoding, has_padding, Span, span_at, decode_triplet}
use cppnet.Encoding.Base64.Text.{base64_text, char_at}
use cppnet.Encoding.Base64.Codec.{IsCodec}
use cppnet.Encoding.Base64.Scan.{scan_full, scan_two, scan_two_pads, scan_three, scan_three_pads}
use cppnet.Encoding.Base64.Block.{store_three, decode_triplet-store, store_two, store_one}

span_in :
    (input : Span) (past ys : List ℕ) (i k : ℕ)
    → input.chars ≡ past ++ ys
    → i ≡ length past
    → k < length ys
    → span_at input (i + k) ≡ read ys k
unfolding span_at
span_in input past ys i k hc hi hk =
    let inside : (i + k == length input.chars) ≡ false =
      rw hc (ground (arith, length-append past ys)) in
    rw (inside, hc) (read-behind past ys (i + k) k (omega arith))

span_end :
    (input : Span) (past ys : List ℕ) (i k : ℕ)
    → input.chars ≡ past ++ ys
    → i ≡ length past
    → k ≡ length ys
    → span_at input (i + k) ≡ input.behind
unfolding span_at
span_end input past ys i k hc hi hk =
    let at_end : (i + k == length input.chars) ≡ true =
      rw hc (ground (arith, length-append past ys)) in
    rw at_end refl

module _ (e : Encoding) where
  -- What `decode` reads behind the text of `bs`: the place after the last padding char, if any.
  abbrev pub read_behind : List ℕ → Run ℕ → Run ℕ
  read_behind [] r = done 0
  read_behind (a ∷ []) r = if has_padding e then r else done 0
  read_behind (a ∷ b ∷ []) r = if has_padding e then r else done 0
  read_behind (a ∷ b ∷ c ∷ bs) r = read_behind bs r

module _ (e : Encoding) (ok : IsCodec e) where
  pub triplet_three :
      (input : Span) (past got after bs : List ℕ) (o₀ o₁ o₂ a b c i j : ℕ)
      → input.chars ≡ past ++ base64_text e (a ∷ b ∷ c ∷ bs)
      → i ≡ length past
      → j ≡ length got
      → a < 256
      → b < 256
      → c < 256
      → decode_triplet e (got ++ (o₀ ∷ o₁ ∷ o₂ ∷ after)) j input i (length input.chars - i)
        ≡ done (true, got ++ (a ∷ b ∷ c ∷ after))
  triplet_three input past got after bs o₀ o₁ o₂ a b c i j hc hi hj ha hb hcc =
      let text = base64_text e (a ∷ b ∷ c ∷ bs) in
      let v₁ = a % 4 * 16 + b / 16 in
      let v₂ = b % 16 * 4 + c / 64 in
      let long : min (length input.chars - i) 4 ≡ 4 =
        rw hc (omega (arith, length-append past text)) in
      decode_triplet-store e (got ++ (o₀ ∷ o₁ ∷ o₂ ∷ after)) j input i (length input.chars - i) 4
        (a / 4) v₁ v₂ (c % 64) 4 (done 0) long
        (scan_full e ok input i (a / 4) v₁ v₂ (c % 64) (omega arith) (omega arith) (omega arith)
          (omega arith) (span_in input past text i 0 hc hi (omega arith))
          (span_in input past text i 1 hc hi (omega arith))
          (span_in input past text i 2 hc hi (omega arith))
          (span_in input past text i 3 hc hi (omega arith)))
      ∙ store_three got after o₀ o₁ o₂ a b c j hj ha hb hcc

  pub triplet_two :
      (input : Span) (past got after : List ℕ) (o₀ o₁ a b i j : ℕ)
      → input.chars ≡ past ++ base64_text e (a ∷ b ∷ [])
      → i ≡ length past
      → j ≡ length got
      → a < 256
      → b < 256
      → decode_triplet e (got ++ (o₀ ∷ o₁ ∷ after)) j input i (length input.chars - i)
        ≡ (read_behind e (a ∷ b ∷ []) input.behind >>= λ _. done (true, got ++ (a ∷ b ∷ after)))
  triplet_two input past got after o₀ o₁ a b i j hc hi hj ha hb =
      let v₁ = a % 4 * 16 + b / 16 in
      let v₂ = b % 16 * 4 in
      let out = got ++ (o₀ ∷ o₁ ∷ after) in
      let rest = length input.chars - i in
      let front : List ℕ =
        char_at e.encoder (a / 4) ∷ char_at e.encoder v₁ ∷ char_at e.encoder v₂ ∷ [] in
      let stored = store_two got after o₀ o₁ a b j hj ha hb in
      elim (Bool-cases (has_padding e)) [
        | inl p ↦
            let text = front ++ (e.padchar ∷ []) in
            let hc' : input.chars ≡ past ++ text = rw p at hc in
            let long : min rest 4 ≡ 4 = rw hc' (omega (arith, length-append past text)) in
            rw p (
              decode_triplet-store e out j input i rest 4 (a / 4) v₁ v₂ 0 3 input.behind long (
                scan_three_pads e ok input i (a / 4) v₁ v₂ input.behind (omega arith) (omega arith)
                  (omega arith) p (span_in input past text i 0 hc' hi (omega arith))
                  (span_in input past text i 1 hc' hi (omega arith))
                  (span_in input past text i 2 hc' hi (omega arith))
                  (span_in input past text i 3 hc' hi (omega arith))
                  (span_end input past text i 4 hc' hi refl))
              ∙ ap (λ t. input.behind >>= λ _. t) stored)
        | inr p ↦
            let hc' : input.chars ≡ past ++ front = rw p at hc in
            let long : min rest 4 ≡ 3 = rw hc' (omega (arith, length-append past front)) in
            rw p (
              decode_triplet-store e out j input i rest 3 (a / 4) v₁ v₂ 0 3 (done 0) long (
                scan_three e ok input i (a / 4) v₁ v₂ (omega arith) (omega arith) (omega arith)
                  (span_in input past front i 0 hc' hi (omega arith))
                  (span_in input past front i 1 hc' hi (omega arith))
                  (span_in input past front i 2 hc' hi (omega arith)))
              ∙ stored)
      ]

  pub triplet_one :
      (input : Span) (past got after : List ℕ) (o₀ a i j : ℕ)
      → input.chars ≡ past ++ base64_text e (a ∷ [])
      → i ≡ length past
      → j ≡ length got
      → a < 256
      → decode_triplet e (got ++ (o₀ ∷ after)) j input i (length input.chars - i)
        ≡ (read_behind e (a ∷ []) input.behind >>= λ _. done (true, got ++ (a ∷ after)))
  triplet_one input past got after o₀ a i j hc hi hj ha =
      let v₁ = a % 4 * 16 in
      let out = got ++ (o₀ ∷ after) in
      let rest = length input.chars - i in
      let front : List ℕ = char_at e.encoder (a / 4) ∷ char_at e.encoder v₁ ∷ [] in
      let stored = store_one got after o₀ a j hj ha in
      elim (Bool-cases (has_padding e)) [
        | inl p ↦
            let text = front ++ (e.padchar ∷ e.padchar ∷ []) in
            let hc' : input.chars ≡ past ++ text = rw p at hc in
            let long : min rest 4 ≡ 4 = rw hc' (omega (arith, length-append past text)) in
            rw p (
              decode_triplet-store e out j input i rest 4 (a / 4) v₁ 0 0 2 input.behind long (
                scan_two_pads e ok input i (a / 4) v₁ input.behind (omega arith) (omega arith) p
                  (span_in input past text i 0 hc' hi (omega arith))
                  (span_in input past text i 1 hc' hi (omega arith))
                  (span_in input past text i 2 hc' hi (omega arith))
                  (span_in input past text i 3 hc' hi (omega arith))
                  (span_end input past text i 4 hc' hi refl))
              ∙ ap (λ t. input.behind >>= λ _. t) stored)
        | inr p ↦
            let hc' : input.chars ≡ past ++ front = rw p at hc in
            let long : min rest 4 ≡ 2 = rw hc' (omega (arith, length-append past front)) in
            rw p (
              decode_triplet-store e out j input i rest 2 (a / 4) v₁ 0 0 2 (done 0) long (
                scan_two e ok input i (a / 4) v₁ (omega arith) (omega arith) p
                  (span_in input past front i 0 hc' hi (omega arith))
                  (span_in input past front i 1 hc' hi (omega arith)))
              ∙ stored)
      ]
