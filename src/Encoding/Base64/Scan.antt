-- ===== src/Encoding/Base64/Scan.antt =====
-- How `decode_triplet` scans the chars of one block: four of the alphabet, or two or three with
-- padding or the end of the input behind them.

use cppnet.Prelude.Memory.{◌>>=◌, write, done, Run, fault}
use cppnet.Prelude.{
  ℕ, ==_refl, List, [], arith, false, refl, replicate, suc, true, ◌+◌, ◌<◌, ◌==◌, ◌∙◌, ◌∷◌, ◌≡◌,
}
use cppnet.Encoding.Base64.{Encoding, invalid, has_padding, Span, span_at, skip_padding, scan}
use cppnet.Encoding.Base64.Text.{char_at}
use cppnet.Encoding.Base64.Codec.{IsCodec}

module _ (e : Encoding) (ok : IsCodec e) where
  -- A char of the alphabet goes into the buffer.
  scan_char :
      (n : ℕ) (input : Span) (from i v buflen : ℕ) (buf : List ℕ)
      → v < 64
      → span_at input (from + i) ≡ done (char_at e.encoder v)
      → scan e (suc n) input from i buf buflen
        ≡ (write buf i v >>= λ buf'. scan e n input from (i + 1) buf' (buflen + 1))
  unfolding scan
  scan_char n input from i v buflen buf hv h =
      let valid : (v == invalid) ≡ false = ground arith in rw (h, ok.reads v hv, valid) refl

  -- A padding char starts the inner loop.
  scan_pad :
      (n : ℕ) (input : Span) (from i buflen : ℕ) (buf : List ℕ)
      → has_padding e ≡ true
      → span_at input (from + i) ≡ done e.padchar
      → scan e (suc n) input from i buf buflen
        ≡ (skip_padding e (suc n) input from i e.padchar >>= λ i'. done (i', buf, buflen))
  unfolding scan
  scan_pad n input from i buflen buf hp h = rw (h, ok.pad_reads hp, hp) refl

  -- The inner loop over one padding char, and what it reads next.
  skip_pad :
      (n : ℕ) (input : Span) (from i : ℕ)
      → skip_padding e (suc n) input from i e.padchar
        ≡ (span_at input (from + (i + 1)) >>= λ c'. skip_padding e n input from (i + 1) c')
  unfolding skip_padding
  skip_pad n input from i = rw (==_refl e.padchar) refl

  pub scan_full :
      (input : Span) (from v₀ v₁ v₂ v₃ : ℕ)
      → v₀ < 64
      → v₁ < 64
      → v₂ < 64
      → v₃ < 64
      → span_at input (from + 0) ≡ done (char_at e.encoder v₀)
      → span_at input (from + 1) ≡ done (char_at e.encoder v₁)
      → span_at input (from + 2) ≡ done (char_at e.encoder v₂)
      → span_at input (from + 3) ≡ done (char_at e.encoder v₃)
      → scan e 4 input from 0 (replicate 4 0) 0 ≡ done (4, v₀ ∷ v₁ ∷ v₂ ∷ v₃ ∷ [], 4)
  scan_full input from v₀ v₁ v₂ v₃ h₀ h₁ h₂ h₃ r₀ r₁ r₂ r₃ =
      scan_char 3 input from 0 v₀ 0 (replicate 4 0) h₀ r₀
      ∙ scan_char 2 input from 1 v₁ 1 (v₀ ∷ 0 ∷ 0 ∷ 0 ∷ []) h₁ r₁
      ∙ scan_char 1 input from 2 v₂ 2 (v₀ ∷ v₁ ∷ 0 ∷ 0 ∷ []) h₂ r₂
      ∙ scan_char 0 input from 3 v₃ 3 (v₀ ∷ v₁ ∷ v₂ ∷ 0 ∷ []) h₃ r₃
      ∙ unfold scan in refl

  -- Two chars at the end of the input, with padding behind them or none.
  pub scan_two :
      (input : Span) (from v₀ v₁ : ℕ)
      → v₀ < 64
      → v₁ < 64
      → has_padding e ≡ false
      → span_at input (from + 0) ≡ done (char_at e.encoder v₀)
      → span_at input (from + 1) ≡ done (char_at e.encoder v₁)
      → scan e 2 input from 0 (replicate 4 0) 0 ≡ done (2, v₀ ∷ v₁ ∷ 0 ∷ 0 ∷ [], 2)
  scan_two input from v₀ v₁ h₀ h₁ hp r₀ r₁ =
      scan_char 1 input from 0 v₀ 0 (replicate 4 0) h₀ r₀
      ∙ scan_char 0 input from 1 v₁ 1 (v₀ ∷ 0 ∷ 0 ∷ 0 ∷ []) h₁ r₁
      ∙ unfold scan in refl

  pub scan_two_pads :
      (input : Span) (from v₀ v₁ : ℕ) (r : Run ℕ)
      → v₀ < 64
      → v₁ < 64
      → has_padding e ≡ true
      → span_at input (from + 0) ≡ done (char_at e.encoder v₀)
      → span_at input (from + 1) ≡ done (char_at e.encoder v₁)
      → span_at input (from + 2) ≡ done e.padchar
      → span_at input (from + 3) ≡ done e.padchar
      → span_at input (from + 4) ≡ r
      → scan e 4 input from 0 (replicate 4 0) 0 ≡ (r >>= λ _. done (4, v₀ ∷ v₁ ∷ 0 ∷ 0 ∷ [], 2))
  scan_two_pads input from v₀ v₁ r h₀ h₁ hp r₀ r₁ r₂ r₃ r₄ =
      scan_char 3 input from 0 v₀ 0 (replicate 4 0) h₀ r₀
      ∙ scan_char 2 input from 1 v₁ 1 (v₀ ∷ 0 ∷ 0 ∷ 0 ∷ []) h₁ r₁
      ∙ scan_pad 1 input from 2 2 (v₀ ∷ v₁ ∷ 0 ∷ 0 ∷ []) hp r₂
      ∙ rw (skip_pad 1 input from 2, r₃, skip_pad 0 input from 3, r₄) (last r)
    where
      last :
          (r : Run ℕ)
          → ◌≡◌ {A = Run (ℕ × List ℕ × ℕ)}
              (r >>= (λ c'. skip_padding e 0 input from 4 c') >>= λ i'.
                done (i', v₀ ∷ v₁ ∷ 0 ∷ 0 ∷ [], 2))
              (r >>= λ _. done (4, v₀ ∷ v₁ ∷ 0 ∷ 0 ∷ [], 2))
      last (done x) = unfold skip_padding in refl
      last fault = refl

  pub scan_three :
      (input : Span) (from v₀ v₁ v₂ : ℕ)
      → v₀ < 64
      → v₁ < 64
      → v₂ < 64
      → span_at input (from + 0) ≡ done (char_at e.encoder v₀)
      → span_at input (from + 1) ≡ done (char_at e.encoder v₁)
      → span_at input (from + 2) ≡ done (char_at e.encoder v₂)
      → scan e 3 input from 0 (replicate 4 0) 0 ≡ done (3, v₀ ∷ v₁ ∷ v₂ ∷ 0 ∷ [], 3)
  scan_three input from v₀ v₁ v₂ h₀ h₁ h₂ r₀ r₁ r₂ =
      scan_char 2 input from 0 v₀ 0 (replicate 4 0) h₀ r₀
      ∙ scan_char 1 input from 1 v₁ 1 (v₀ ∷ 0 ∷ 0 ∷ 0 ∷ []) h₁ r₁
      ∙ scan_char 0 input from 2 v₂ 2 (v₀ ∷ v₁ ∷ 0 ∷ 0 ∷ []) h₂ r₂
      ∙ unfold scan in refl

  pub scan_three_pads :
      (input : Span) (from v₀ v₁ v₂ : ℕ) (r : Run ℕ)
      → v₀ < 64
      → v₁ < 64
      → v₂ < 64
      → has_padding e ≡ true
      → span_at input (from + 0) ≡ done (char_at e.encoder v₀)
      → span_at input (from + 1) ≡ done (char_at e.encoder v₁)
      → span_at input (from + 2) ≡ done (char_at e.encoder v₂)
      → span_at input (from + 3) ≡ done e.padchar
      → span_at input (from + 4) ≡ r
      → scan e 4 input from 0 (replicate 4 0) 0 ≡ (r >>= λ _. done (4, v₀ ∷ v₁ ∷ v₂ ∷ 0 ∷ [], 3))
  scan_three_pads input from v₀ v₁ v₂ r h₀ h₁ h₂ hp r₀ r₁ r₂ r₃ r₄ =
      scan_char 3 input from 0 v₀ 0 (replicate 4 0) h₀ r₀
      ∙ scan_char 2 input from 1 v₁ 1 (v₀ ∷ 0 ∷ 0 ∷ 0 ∷ []) h₁ r₁
      ∙ scan_char 1 input from 2 v₂ 2 (v₀ ∷ v₁ ∷ 0 ∷ 0 ∷ []) h₂ r₂
      ∙ scan_pad 0 input from 3 3 (v₀ ∷ v₁ ∷ v₂ ∷ 0 ∷ []) hp r₃
      ∙ rw (skip_pad 0 input from 3, r₄) (last r)
    where
      last :
          (r : Run ℕ)
          → ◌≡◌ {A = Run (ℕ × List ℕ × ℕ)}
              (r >>= (λ c'. skip_padding e 0 input from 4 c') >>= λ i'.
                done (i', v₀ ∷ v₁ ∷ v₂ ∷ 0 ∷ [], 3))
              (r >>= λ _. done (4, v₀ ∷ v₁ ∷ v₂ ∷ 0 ∷ [], 3))
      last (done x) = unfold skip_padding in refl
      last fault = refl
