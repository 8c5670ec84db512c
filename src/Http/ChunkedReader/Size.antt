-- ===== src/Http/ChunkedReader/Size.antt =====
-- The size of a chunk, in the decimal digits that the chunked writer writes.

use cppnet.Prelude.{
  ap₂, List, [], arith, length, leb, none, some, suc, true, zero, ℕ, refl, ◌++◌, ◌+◌, ◌∷◌, ◌≡◌, ◌<◌,
  ◌^◌, ◌%◌, ◌*◌, ◌&&◌, Bool-cases, ap, append_assoc, inl, inr, length-append, ltb, ◌/◌, ◌∙◌,
}
use native.Mathlib.Nat.{pow-suc}
use cppnet.Prelude.Chars.{decimal_text}
use cppnet.Io.{Reader}
use cppnet.Http.ChunkedWriter.{crlf}
use cppnet.Http.ChunkedReader.{ChunkedReader, next_size_loop, get_next_chunk_size}

module _ {S : Type 0} (rd : Reader S) (content : S → List ℕ) where
  -- A reader that gives the next byte of its content, where there is one, to a span of one byte.
  abbrev pub Steps : Type 0
  Steps =
      (s : S) (b : ℕ) (rest : List ℕ)
      → content s ≡ b ∷ rest
      → ((rd.read_some 1 s).0 ≡ record { bytes = b ∷ []; err = none })
        × (content (rd.read_some 1 s).1 ≡ rest)

  module _ (steps : Steps) where
    next_size_loop-digit :
        (fuel size d : ℕ) (s : S) (tail : List ℕ)
        → d < 10
        → content s ≡ (d + b'0') ∷ tail
        → next_size_loop rd (suc fuel) size s
          ≡ next_size_loop rd fuel ((size * 10 + d) % 2 ^ 64) (rd.read_some 1 s).1
    unfolding next_size_loop
    next_size_loop-digit fuel size d s tail h e =
        let one = (steps s (d + b'0') tail e).0 in
        let digit : (leb b'0' (d + b'0') && leb (d + b'0') b'9') ≡ true = ground arith in
        rw (one, digit)
          (ap (λ x. next_size_loop rd fuel ((size * 10 + x) % 2 ^ 64) (rd.read_some 1 s).1)
            (omega arith))

    next_size_loop-end :
        (fuel size : ℕ) (s : S) (tail : List ℕ)
        → content s ≡ crlf ++ tail
        → (o : ChunkedReader S) × (next_size_loop rd (suc fuel) size s ≡ some (none, o))
          × (o.current_chunk_size ≡ size)
          × (content o.parent ≡ tail)
    unfolding next_size_loop
    next_size_loop-end fuel size s tail e =
        let one = steps s 13 (10 ∷ tail) e in
        let two = steps (rd.read_some 1 s).1 10 tail one.1 in
        (
          record { parent = (rd.read_some 1 (rd.read_some 1 s).1).1; current_chunk_size = size },
          rw (one.0, two.0) refl,
          refl,
          two.1,
        )

    next_size_loop-decimal_text :
        (k v fuel : ℕ) (s : S) (tail : List ℕ)
        → v < 2 ^ 64
        → v < 10 ^ k
        → content s ≡ decimal_text k v ++ tail
        → (s' : S) × (content s' ≡ tail)
          × (next_size_loop rd (length (decimal_text k v) + fuel) 0 s ≡ next_size_loop rd fuel v s')
    next_size_loop-decimal_text zero v fuel s tail hw h e =
        (s, e, ap₂ (λ x y. next_size_loop rd x y s) (omega arith) (omega arith))
    next_size_loop-decimal_text (suc k) v fuel s tail hw h e = elim (Bool-cases (ltb v 10)) [
      | inl small ↦
          let one : decimal_text (suc k) v ≡ (v + b'0') ∷ [] = rw small refl in
          let e' : content s ≡ (v + b'0') ∷ tail = e ∙ ap (λ t. t ++ tail) one in
          (
            (rd.read_some 1 s).1,
            (steps s (v + b'0') tail e').1,
            ap (λ x. next_size_loop rd x 0 s) (omega (arith, ap length one))
                ∙ next_size_loop-digit fuel 0 v s tail (ground (arith, small)) e'
                ∙ ap (λ x. next_size_loop rd fuel x (rd.read_some 1 s).1) (omega arith),
          )
      | inr large ↦
          let digits = decimal_text k (v / 10) in
          let last = (v % 10 + b'0') ∷ [] in
          let more : decimal_text (suc k) v ≡ digits ++ last = rw large refl in
          let power : 10 ^ suc k ≡ 10 ^ k * 10 = omega (arith, pow-suc 10 k) in
          let first =
            next_size_loop-decimal_text k (v / 10) (suc fuel) s ((v % 10 + b'0') ∷ tail)
              (omega arith) (omega arith)
              (e ∙ ap (λ t. t ++ tail) more ∙ append_assoc digits last tail) in
          let s' = first.0 in
          (
            (rd.read_some 1 s').1,
            (steps s' (v % 10 + b'0') tail first.1).1,
            ap (λ x. next_size_loop rd x 0 s)
                  (omega (arith, ap length more, length-append digits last))
                ∙ first.2
                ∙ next_size_loop-digit fuel (v / 10) (v % 10) s' tail (omega arith) first.1
                ∙ ap (λ x. next_size_loop rd fuel x (rd.read_some 1 s').1) (omega arith),
          )
    ]

    -- Of a reader that gives its content byte by byte, get_next_chunk_size reads the text that the
    -- chunked writer writes for a number below 2^64 of at most `k` digits, and the line end behind
    -- it, without an error and with this number as the size.
    pub get_next_chunk_size-decimal_text :
        (k v : ℕ) (s : ChunkedReader S) (tail : List ℕ)
        → v < 2 ^ 64
        → v < 10 ^ k
        → content s.parent ≡ decimal_text k v ++ (crlf ++ tail)
        → (o : ChunkedReader S) × (get_next_chunk_size rd (length (decimal_text k v) + 1) s
            ≡ some (none, o))
          × (o.current_chunk_size ≡ v)
          × (content o.parent ≡ tail)
    unfolding get_next_chunk_size
    get_next_chunk_size-decimal_text k v s tail hw h e =
        let read_digits = next_size_loop-decimal_text k v 1 s.parent (crlf ++ tail) hw h e in
        let end = next_size_loop-end 0 v read_digits.0 tail read_digits.1 in
        (end.0, read_digits.2 ∙ end.1, end.2, end.3)
