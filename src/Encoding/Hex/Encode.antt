-- ===== src/Encoding/Hex/Encode.antt =====
-- What the encoder of encoding/hex.cpp writes.

use cppnet.Prelude.{
  ℕ, ◌+◌, ◌*◌, List, [], ◌∷◌, ◌++◌, length, ◌≡◌, refl, ap, ◌∙◌, arith, append_assoc, length-append,
  append-nil, length-replicate, replicate, sym,
}
use cppnet.Prelude.Memory.{done, write-append}
use cppnet.Encoding.Hex.{encode_to_loop, encode_byte, encoded_size, encode_to, encode}

-- The text of some bytes, two digits each.
abbrev pub hex_text : List ℕ → List ℕ
hex_text [] = []
hex_text (b ∷ bs) = (encode_byte b).0 ∷ (encode_byte b).1 ∷ hex_text bs

pub length-hex_text : (bs : List ℕ) → length (hex_text bs) ≡ length bs * 2
length-hex_text [] = refl
length-hex_text (b ∷ bs) = omega (arith, length-hex_text bs)

encode_to_loop-hex_text :
    (bs : List ℕ) (i offset : ℕ) (before old after : List ℕ)
    → offset + i * 2 ≡ length before
    → length old ≡ length bs * 2
    → encode_to_loop bs i (before ++ (old ++ after)) offset
      ≡ done (before ++ (hex_text bs ++ after))
unfolding encode_to_loop
encode_to_loop-hex_text [] i offset before [] after hb ho = refl
encode_to_loop-hex_text [] i offset before (o ∷ old) after hb ho = absurd (omega arith)
encode_to_loop-hex_text (b ∷ bs) i offset before [] after hb ho = absurd (omega arith)
encode_to_loop-hex_text (b ∷ bs) i offset before (o ∷ []) after hb ho = absurd (omega arith)
encode_to_loop-hex_text (b ∷ bs) i offset before (o ∷ o' ∷ old) after hb ho =
    let (hi, lo) = encode_byte b in
    let rest = old ++ after in
    rw (write-append before (o ∷ o' ∷ rest) (offset + i * 2 + 0) 0 hi (omega arith) (omega arith)) (
      rw
        (write-append before (hi ∷ o' ∷ rest) (offset + i * 2 + 1) 1 lo (omega arith) (omega arith))
        (rw (← append_assoc before (hi ∷ lo ∷ []) rest) (
          encode_to_loop-hex_text bs (i + 1) offset (before ++ (hi ∷ lo ∷ [])) old after
            (omega (arith, length-append before (hi ∷ lo ∷ []))) (omega arith)
          ∙ ap done (append_assoc before (hi ∷ lo ∷ []) (hex_text bs ++ after)))))

-- `encode_to` overwrites exactly the window of `out` at `offset` that the digits of the bytes fill,
-- and leaves what stands before and after it.
pub encode_to-hex_text :
    (bs before old after : List ℕ)
    → length old ≡ length bs * 2
    → encode_to bs (before ++ (old ++ after)) (length before)
      ≡ done (before ++ (hex_text bs ++ after))
unfolding encode_to
encode_to-hex_text bs before old after h =
    encode_to_loop-hex_text bs 0 (length before) before old after (omega arith) h

pub encode-hex_text : (bs : List ℕ) → encode bs ≡ done (hex_text bs)
unfolding encode encoded_size
encode-hex_text bs =
    let blank = replicate (length bs * 2) 0 in
    ap (λ out. encode_to_loop bs 0 out 0) (sym (append-nil blank))
    ∙ encode_to-hex_text bs [] blank [] (length-replicate (length bs * 2) 0)
    ∙ ap done (append-nil (hex_text bs))
