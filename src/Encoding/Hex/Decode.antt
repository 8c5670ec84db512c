-- ===== src/Encoding/Hex/Decode.antt =====
-- What the decoder of encoding/hex.cpp accepts, and what it makes of it.

use cppnet.Prelude.{
  ℕ, ◌+◌, ◌*◌, List, [], ◌∷◌, ◌++◌, length, ◌≡◌, refl, ap, ◌∙◌, arith, append_assoc, length-append,
  Bool, Option, if◌then◌else◌, length-replicate, none, replicate, some, suc, zero, ◌&&◌, sym,
  Bool-cases, inl, inr, false, ltb, true, ◌%◌, ◌/◌, ◌==◌,
}
use cppnet.Prelude.Memory.{done, write-append, ◌>>=◌, read, read-append, Run}
use cppnet.Encoding.Hex.{is_hex_char, decode_pair, decode_to_loop, decoded_size, decode_to, decode}
use mathlib.Core.Option

-- What `decode_pair` makes of the pairs, if all are digits and none is left over.
abbrev pub pair_bytes : List ℕ → Option (List ℕ)
pair_bytes [] = some []
pair_bytes (hi ∷ []) = none
pair_bytes (hi ∷ lo ∷ cs) =
    if is_hex_char hi && is_hex_char lo
    then Option.map (λ bs. decode_pair hi lo ∷ bs) (pair_bytes cs)
    else none

abbrev pub verdict : Bool × List ℕ → Run (Option (List ℕ))
verdict r = done (if r.0 then some r.1 else none)

read-second :
    (past : List ℕ) (c c' : ℕ) (cs : List ℕ) (i : ℕ)
    → i ≡ length past + 1
    → read (past ++ (c ∷ c' ∷ cs)) i ≡ done c'
read-second past c c' cs i h =
    rw (append_assoc past (c ∷ []) (c' ∷ cs)) at
      (read-append (past ++ (c ∷ [])) c' cs i (omega (arith, length-append past (c ∷ []))))

map_grow :
    (got : List ℕ) (v : ℕ) (o : Option (List ℕ))
    → Option.map (λ bs. (got ++ (v ∷ [])) ++ bs) o
      ≡ Option.map (λ bs. got ++ bs) (Option.map (λ bs. v ∷ bs) o)
map_grow got v none = refl
map_grow got v (some bs) = ap some (append_assoc got (v ∷ []) bs)

pub decode_to_loop-pair_bytes :
    (n i : ℕ) (past cs got old : List ℕ)
    → i * 2 ≡ length past
    → i ≡ length got
    → n ≡ length old
    → length cs ≡ n * 2
    → (decode_to_loop n i (past ++ cs) (got ++ old) >>= verdict)
      ≡ done (Option.map (λ bs. got ++ bs) (pair_bytes cs))
unfolding decode_to_loop
decode_to_loop-pair_bytes zero i past [] got [] hp hg ho hc = refl
decode_to_loop-pair_bytes zero i past (c ∷ cs) got old hp hg ho hc = absurd (omega arith)
decode_to_loop-pair_bytes zero i past [] got (o ∷ old) hp hg ho hc = absurd (omega arith)
decode_to_loop-pair_bytes (suc n) i past [] got old hp hg ho hc = absurd (omega arith)
decode_to_loop-pair_bytes (suc n) i past (c ∷ []) got old hp hg ho hc = absurd (omega arith)
decode_to_loop-pair_bytes (suc n) i past (c ∷ c' ∷ cs) got [] hp hg ho hc = absurd (omega arith)
decode_to_loop-pair_bytes (suc n) i past (c ∷ c' ∷ cs) got (o ∷ old) hp hg ho hc =
    let v = decode_pair c c' in
    let pair : List ℕ = c ∷ c' ∷ [] in
    let one : List ℕ = v ∷ [] in
    let ih =
      decode_to_loop-pair_bytes n (i + 1) (past ++ pair) cs (got ++ one) old
        (omega (arith, length-append past pair)) (omega (arith, length-append got one))
        (omega arith) (omega arith) in
    let rest =
      rw (append_assoc got one old, append_assoc past pair cs, map_grow got v (pair_bytes cs)) at
        ih in
    rw
      (
        read-append past c (c' ∷ cs) (i * 2 + 0) (omega arith),
        read-second past c c' cs (i * 2 + 1) (omega arith),
      )
      (elim (Bool-cases (is_hex_char c)) [
        | inl e ↦ elim (Bool-cases (is_hex_char c')) [
          | inl e' ↦
              rw (e, e') (rw (write-append got (o ∷ old) i 0 v (omega arith) (omega arith)) rest)
          | inr e' ↦ rw (e, e') refl
        ]
        | inr e ↦ rw e refl
      ])

pub map_nothing : (o : Option (List ℕ)) → Option.map (λ bs. [] ++ bs) o ≡ o
map_nothing none = refl
map_nothing (some bs) = refl

pair_bytes_odd : (cs : List ℕ) → length cs % 2 ≡ 1 → pair_bytes cs ≡ none
pair_bytes_odd [] h = absurd (omega arith)
pair_bytes_odd (hi ∷ []) h = refl
pair_bytes_odd (hi ∷ lo ∷ cs) h =
    rw (pair_bytes_odd cs (omega arith)) (elim (Bool-cases (is_hex_char hi && is_hex_char lo)) [
      | inl e ↦ rw e refl
      | inr e ↦ rw e refl
    ])

-- `decode` never leaves its buffers.
pub decode-pair_bytes : (cs : List ℕ) → decode cs ≡ done (pair_bytes cs)
unfolding decode decode_to decoded_size
decode-pair_bytes cs = elim (Bool-cases (length cs % 2 == 0)) [
  | inl even ↦
      let n = length cs / 2 in
      rw (even, length-replicate {A = ℕ} n 0, fits n even)
        (decode_to_loop-pair_bytes n 0 [] cs [] (replicate n 0) refl refl
            (omega (arith, length-replicate {A = ℕ} n 0)) (ground arith)
          ∙ ap done (map_nothing (pair_bytes cs)))
  | inr odd ↦ rw odd (ap done (sym (pair_bytes_odd cs (ground arith))))
]
  where
    fits : (n : ℕ) → (length cs % 2 == 0) ≡ true → ltb (length cs / 2 * 2) (length cs) ≡ false
    fits n even = ground arith
