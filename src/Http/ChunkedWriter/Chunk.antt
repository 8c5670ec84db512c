-- ===== src/Http/ChunkedWriter/Chunk.antt =====
-- Data that fits in one chunk.

use cppnet.Prelude.{
  Bool-cases, List, [], ap, arith, false, inl, inr, length, ltb, min, refl, some, take, take_long,
  true, ℕ, ◌++◌, ◌+◌, ◌<◌, ◌∙◌, ◌∷◌, ◌≡◌, ◌≤◌, append_assoc, ap₂, none, suc, zero,
}
use cppnet.Prelude.Memory.{done}
use cppnet.Prelude.Chars.{decimal_text}
use cppnet.Io.{Writer, Result, IsSink}
use cppnet.Io.BufferedReader.{failed}
use cppnet.Io.BufferedReader.Deliver.{clash, no_error}
use cppnet.Http.ChunkedWriter.{max_chunk_size, crlf, chunk_loop, chunked_write}

-- A chunk: its size in decimal digits, and the data, with a line end behind each.
abbrev pub chunk_text : List ℕ → List ℕ
chunk_text bytes = decimal_text 8 (length bytes) ++ (crlf ++ (bytes ++ crlf))

module _ {S : Type 0} (wr : Writer S) (written : S → List ℕ) (sink : IsSink wr written) where
  wrote_all :
      (bytes : List ℕ) (s : S)
      → failed (wr.write_some bytes s).0.err ≡ false
      → (written (wr.write_some bytes s).1 ≡ written s ++ bytes)
        × ((wr.write_some bytes s).0.count ≡ length bytes)
  wrote_all bytes s good =
      let all = sink.all_or_error bytes s (no_error _ good) in
      (
        sink.appends bytes s
            ∙ ap (λ t. written s ++ t)
                (take_long (wr.write_some bytes s).0.count bytes (omega arith)),
        all,
      )

  chunk_loop_end :
      (fuel : ℕ) (bytes : List ℕ) (total : ℕ) (s : S)
      → length bytes ≤ total
      → chunk_loop wr fuel bytes total s ≡ done (some (record { count = total; err = none }, s))
  unfolding chunk_loop
  chunk_loop_end zero bytes total s h =
      let ends : ltb total (length bytes) ≡ false = ground arith in rw ends refl
  chunk_loop_end (suc fuel) bytes total s h =
      let ends : ltb total (length bytes) ≡ false = ground arith in rw ends refl

  four_pieces :
      (before a b c d : List ℕ)
      → (((before ++ a) ++ b) ++ c) ++ d ≡ before ++ (a ++ (b ++ (c ++ d)))
  four_pieces before a b c d =
      append_assoc ((before ++ a) ++ b) c d
      ∙ append_assoc (before ++ a) b (c ++ d)
      ∙ append_assoc before a (b ++ (c ++ d))

  -- Four writes, one after the other.
  wrote_four :
      (a b c d : List ℕ) (s : S)
      → let r₁ = wr.write_some a s in
        let r₂ = wr.write_some b r₁.1 in
        let r₃ = wr.write_some c r₂.1 in
        let r₄ = wr.write_some d r₃.1 in
        failed r₁.0.err ≡ false
        → failed r₂.0.err ≡ false
        → failed r₃.0.err ≡ false
        → failed r₄.0.err ≡ false
        → (r₃.0.count ≡ length c) × (written r₄.1 ≡ written s ++ (a ++ (b ++ (c ++ d))))
  wrote_four a b c d s g₁ g₂ g₃ g₄ =
      let r₁ = wr.write_some a s in
      let r₂ = wr.write_some b r₁.1 in
      let r₃ = wr.write_some c r₂.1 in
      let t₁ = (wrote_all a s g₁).0 in
      let t₂ = (wrote_all b r₁.1 g₂).0 ∙ ap (λ t. t ++ b) t₁ in
      let w₃ = wrote_all c r₂.1 g₃ in
      (
        w₃.1,
        (wrote_all d r₃.1 g₄).0
            ∙ ap (λ t. t ++ d) (w₃.0 ∙ ap (λ t. t ++ c) t₂)
            ∙ four_pieces (written s) a b c d,
      )

  abbrev pub Chunked : List ℕ → S → Result × S → Type 0
  Chunked bytes s o =
      failed o.0.err ≡ false
      → (o.0.count ≡ length bytes) × (written o.1 ≡ written s ++ chunk_text bytes)

  -- Some data of at most 99999999 bytes, over a writer that appends what it counts, and that
  -- counts all of the data or reports an error: `write` returns, and without an error it has
  -- written one chunk and counted the bytes of the data.
  pub chunked_write-Chunked :
      (bytes : List ℕ) (s : S)
      → 0 < length bytes
      → length bytes ≤ 99999999
      → (o : Result × S) × (chunked_write wr bytes s ≡ done (some o)) × Chunked bytes s o
  unfolding chunked_write chunk_loop
  chunked_write-Chunked [] s h0 h1 = absurd (omega arith)
  chunked_write-Chunked (b ∷ bs) s h0 h1 =
      let data' : List ℕ = b ∷ bs in
      let amount = min max_chunk_size (length data') in
      let full_chunk : amount ≡ length data' = omega arith in
      let r₁ = wr.write_some (decimal_text 8 amount) s in
      let r₂ = wr.write_some crlf r₁.1 in
      let r₃ = wr.write_some (take amount data') r₂.1 in
      let r₄ = wr.write_some crlf r₃.1 in
      let some_left : ltb 0 (length data') ≡ true = ground arith in
      let inside : ltb (length data') (0 + amount) ≡ false = ground (arith, full_chunk) in
      elim (Bool-cases (failed r₁.0.err)) [
        | inl e₁ ↦ (
          (record { count = 0; err = r₁.0.err }, r₁.1),
          rw (some_left, e₁) refl,
          λ good. absurd (clash r₁.0.err e₁ good),
        )
        | inr g₁ ↦ elim (Bool-cases (failed r₂.0.err)) [
          | inl e₂ ↦ (
            (record { count = 0; err = r₂.0.err }, r₂.1),
            rw (some_left, g₁, e₂) refl,
            λ good. absurd (clash r₂.0.err e₂ good),
          )
          | inr g₂ ↦ elim (Bool-cases (failed r₃.0.err)) [
            | inl e₃ ↦ (
              (record { count = 0 + r₃.0.count; err = r₃.0.err }, r₃.1),
              rw (some_left, g₁, g₂, inside, e₃) refl,
              λ good. absurd (clash r₃.0.err e₃ good),
            )
            | inr g₃ ↦ elim (Bool-cases (failed r₄.0.err)) [
              | inl e₄ ↦ (
                (record { count = 0 + r₃.0.count; err = r₄.0.err }, r₄.1),
                rw (some_left, g₁, g₂, inside, g₃, e₄) refl,
                λ good. absurd (clash r₄.0.err e₄ good),
              )
              | inr g₄ ↦
                  let all =
                    wrote_four (decimal_text 8 amount) crlf (take amount data') crlf s g₁ g₂ g₃
                      g₄ in
                  let piece = take_long amount data' (omega arith) in
                  let sized : r₃.0.count ≡ length data' = all.0 ∙ ap length piece in
                  (
                    (record { count = 0 + r₃.0.count; err = none }, r₄.1),
                    rw (some_left, g₁, g₂, inside, g₃, g₄)
                        (chunk_loop_end (length data') data' (0 + r₃.0.count) r₄.1
                          (omega (arith, sized))),
                    λ _. (
                      omega (arith, sized),
                      all.1
                          ∙ ap₂ (λ k t. written s ++ (decimal_text 8 k ++ (crlf ++ (t ++ crlf))))
                              full_chunk piece,
                    ),
                  )
            ]
          ]
        ]
      ]
