-- ===== src/Encoding/Base64/Codec.antt =====
-- The decoder's map inverts the alphabet, for every alphabet of 64 different chars.

use cppnet.Prelude.Memory.{read, write, read-set_ne, done, read-set_self}
use cppnet.Prelude.{
  ℕ, Bool, List, [], arith, length, length-set, ltb, not, refl, set, true, ◌&&◌, ◌+◌, ◌<◌, ◌==◌,
  ◌∙◌, ◌∷◌, ◌≡◌, ◌≤◌, ap, replicate, suc, zero,
}
use cppnet.Encoding.Base64.{
  Encoding, invalid, index_of_char, fill_decoder, has_padding, build_decoder, make,
}
use native.Mathlib.Nat.{add-zero}
use cppnet.Encoding.Base64.Text.{char_at}

abbrev pub absent : ℕ → List ℕ → Bool
absent c [] = true
absent c (x ∷ xs) = not (x == c) && absent c xs

abbrev pub distinct : List ℕ → Bool
distinct [] = true
distinct (x ∷ xs) = absent x xs && distinct xs

abbrev pub is_ascii : List ℕ → Bool
is_ascii [] = true
is_ascii (x ∷ xs) = ltb x 128 && is_ascii xs

-- What `encode` and `decode` rely on.
pub record IsCodec (e : Encoding) : Type 0 where
  pub full : length e.encoder ≡ 64
  pub reads : (v : ℕ) → v < 64 → read e.decoder (index_of_char (char_at e.encoder v)) ≡ done v
  pub pad_reads : has_padding e ≡ true → read e.decoder (index_of_char e.padchar) ≡ done invalid

-- The map after the loop over `cs`, started at `out`.
record Filled (cs : List ℕ) (i : ℕ) (out out' : List ℕ) : Type 0 where
  size : length out' ≡ length out
  inside : (k : ℕ) → k < length cs → read out' (index_of_char (char_at cs k)) ≡ done (i + k)
  outside : (c : ℕ) → absent c cs ≡ true → read out' c ≡ read out c

index_ascii : (c : ℕ) → ltb c 128 ≡ true → index_of_char c ≡ c
index_ascii c h = rw h refl

Filled-cons :
    (c : ℕ) (cs : List ℕ) (i : ℕ) (out out' : List ℕ)
    → ltb c 128 ≡ true
    → absent c cs ≡ true
    → 128 ≤ length out
    → Filled cs (i + 1) (set out c i) out'
    → Filled (c ∷ cs) i out out'
Filled-cons c cs i out out' small new hl f = record {
  size = f.size ∙ length-set out c i;
  inside = inside;
  outside = λ x h. f.outside x (ground arith) ∙ read-set_ne out c x i (ground arith);
}
  where
    inside :
        (k : ℕ)
        → k < suc (length cs)
        → read out' (index_of_char (char_at (c ∷ cs) k)) ≡ done (i + k)
    inside zero h =
        rw (index_ascii c small, add-zero) (f.outside c new ∙ read-set_self out c i (ground arith))
    inside (suc k) h = f.inside k (omega arith) ∙ ap done (omega arith)

fill_decoder_lem :
    (cs : List ℕ) (i : ℕ) (out : List ℕ)
    → distinct cs ≡ true
    → is_ascii cs ≡ true
    → 128 ≤ length out
    → (out' : List ℕ) × (fill_decoder cs i out ≡ done out') × Filled cs i out out'
unfolding fill_decoder
fill_decoder_lem [] i out hd ha hl =
    (out, refl, record { size = refl; inside = λ k h. absurd (omega arith); outside = λ c h. refl })
fill_decoder_lem (c ∷ cs) i out hd ha hl =
    let small : ltb c 128 ≡ true = ground arith in
    let new : absent c cs ≡ true = ground arith in
    let first = set out c i in
    let (out', e, f) =
      fill_decoder_lem cs (i + 1) first (ground arith) (ground arith)
        (omega (arith, length-set out c i)) in
    let stored : write out (index_of_char c) i ≡ done first =
      rw (index_ascii c small) (ground arith) in
    (out', rw stored e, Filled-cons c cs i out out' small new hl f)

read-replicate : (n i : ℕ) (x : ℕ) → i < n → read (replicate n x) i ≡ done x
read-replicate zero i x h = absurd (omega arith)
read-replicate (suc n) zero x h = refl
read-replicate (suc n) (suc i) x h = read-replicate n i x (omega arith)

-- The constructor, given 64 different ASCII chars and a padding char that is none of them, succeeds,
-- and its decoder maps each char of the alphabet to its position and the padding char to `0xff`.
pub make-IsCodec :
    (alphabet : List ℕ) (padchar : ℕ)
    → length alphabet ≡ 64
    → distinct alphabet ≡ true
    → is_ascii (padchar ∷ alphabet) ≡ true
    → absent padchar alphabet ≡ true
    → (e : Encoding) × (make alphabet padchar ≡ done e)
      × IsCodec e
      × (e.encoder ≡ alphabet)
      × (e.padchar ≡ padchar)
unfolding make build_decoder
make-IsCodec alphabet padchar full hd ha hp =
    let blank = replicate 256 invalid in
    let (out, e, f) = fill_decoder_lem alphabet 0 blank hd (ground arith) (omega arith) in
    let small : ltb padchar 128 ≡ true = ground arith in
    (
      record { encoder = alphabet; decoder = out; padchar = padchar },
      rw e refl,
      record {
        full = full;
        reads = λ v h. f.inside v (omega arith) ∙ ap done (omega arith);
        pad_reads = λ p.
            rw (index_ascii padchar small)
              (f.outside padchar hp ∙ read-replicate 256 padchar invalid (ground arith));
      },
      refl,
      refl,
    )
