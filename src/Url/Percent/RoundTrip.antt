-- ===== src/Url/Percent/RoundTrip.antt =====
-- `decode` of percent-encoded text, and how far `encode` writes it.

use cppnet.Prelude.Strings.{Misses, position-none, position-some, search_cases}
use cppnet.Prelude.Memory.{◌>>=◌, done}
use cppnet.Prelude.{
  Bool, List, [], if◌then◌else◌, some, ℕ, ◌%◌, ◌/◌, ◌<◌, ◌∷◌, ◌≡◌, All, Bool-cases, IsByte, ap,
  arith, drop, drop-append, drop-drop, inl, inr, leb, length, length-append, refl, suc, sym,
  take-append, true, zero, ◌*◌, ◌++◌, ◌+◌, ◌==◌, ◌∙◌, append_assoc, All-behind, ◌≤◌,
}
use mathlib.Core.Path.{subst}
use cppnet.Url.Percent.{decode_loop, decoded, joined, hex_char, from_chars, hex_value, decode}

-- Percent-encoded text: each reserved char as `%` and two hex digits.
abbrev pub percent_text : (ℕ → Bool) → List ℕ → List ℕ
percent_text reserved [] = []
percent_text reserved (c ∷ cs) =
    let rest = percent_text reserved cs in
    if reserved c then b'%' ∷ hex_char (c / 16) ∷ hex_char (c % 16) ∷ rest else c ∷ rest

hex_value-hex_char : (v : ℕ) → v < 16 → hex_value (hex_char v) ≡ some v
hex_value-hex_char v h = ground arith

digits-value : (c : ℕ) → c < 256 → from_chars (hex_char (c / 16) ∷ hex_char (c % 16) ∷ []) ≡ some c
digits-value c h =
    let sum : c / 16 * 16 + c % 16 ≡ c = omega arith in
    rw
      (
        hex_value-hex_char (c / 16) (omega arith),
        from_chars,
        hex_value-hex_char (c % 16) (omega arith),
      )
      (ap some sum)

pub percent_text-Misses :
    (reserved : ℕ → Bool) (cs : List ℕ) → Misses reserved cs → percent_text reserved cs ≡ cs
percent_text-Misses reserved [] h = refl
percent_text-Misses reserved (c ∷ cs) (hc, h) = rw (hc, percent_text-Misses reserved cs h) refl

pub percent_text-append :
    (reserved : ℕ → Bool) (before : List ℕ) (x : ℕ) (after : List ℕ)
    → Misses reserved before
    → reserved x ≡ true
    → percent_text reserved (before ++ (x ∷ after))
      ≡ before ++ (b'%' ∷ hex_char (x / 16) ∷ hex_char (x % 16) ∷ percent_text reserved after)
percent_text-append reserved [] x after h hx = rw hx refl
percent_text-append reserved (c ∷ before) x after (hc, h) hx =
    rw (hc, percent_text-append reserved before x after h hx) refl

-- Text without a percent sign is decoded to itself.
pub decode_loop-plain :
    (fuel : ℕ) (str : List ℕ)
    → Misses (λ c. c == b'%') str
    → decode_loop (suc fuel) str ≡ done (some str)
unfolding decode_loop
decode_loop-plain fuel str h = rw (position-none (λ c. c == b'%') str h, decode_loop) refl

-- A round of `decode` over a percent sign and two chars.
decode_loop-percent :
    (fuel : ℕ) (before : List ℕ) (a b : ℕ) (after : List ℕ)
    → Misses (λ c. c == b'%') before
    → decode_loop (suc fuel) (before ++ (b'%' ∷ a ∷ b ∷ after)) ≡ (
        decode_loop fuel after >>= λ out.
        done (joined (decoded (from_chars (a ∷ b ∷ [])) before) out))
unfolding decode_loop
decode_loop-percent fuel before a b after h =
    let n = length before in
    let found = position-some (λ c. c == b'%') before b'%' (a ∷ b ∷ after) h refl in
    let whole = length-append before (b'%' ∷ a ∷ b ∷ after) in
    let inside : leb (n + 3) (length (before ++ (b'%' ∷ a ∷ b ∷ after))) ≡ true =
      ground (arith, whole) in
    let rest : drop (n + 3) (before ++ (b'%' ∷ a ∷ b ∷ after)) ≡ after =
      sym (drop-drop n 3 (before ++ (b'%' ∷ a ∷ b ∷ after)))
      ∙ ap (drop 3) (drop-append before (b'%' ∷ a ∷ b ∷ after) n refl) in
    let digits : drop (n + 1) (before ++ (b'%' ∷ a ∷ b ∷ after)) ≡ a ∷ b ∷ after =
      sym (drop-drop n 1 (before ++ (b'%' ∷ a ∷ b ∷ after)))
      ∙ ap (drop 1) (drop-append before (b'%' ∷ a ∷ b ∷ after) n refl) in
    rw (found, decode_loop, inside, rest, digits, take-append before (b'%' ∷ a ∷ b ∷ after) n refl)
      refl

Misses-weaker :
    (p q : ℕ → Bool) (cs : List ℕ) → ((c : ℕ) → q c ≡ true → p c ≡ true) → Misses p cs → Misses q cs
Misses-weaker p q [] h hs = tt
Misses-weaker p q (c ∷ cs) h (hc, hs) = (
  elim (Bool-cases (q c)) [ inl e ↦ absurd (ground (arith, h c e, hc)) | inr e ↦ e ],
  Misses-weaker p q cs h hs,
)

decode_loop-percent_text :
    (fuel : ℕ) (reserved : ℕ → Bool) (cs : List ℕ)
    → ((c : ℕ) → (c == b'%') ≡ true → reserved c ≡ true)
    → All IsByte cs
    → length cs < fuel
    → decode_loop fuel (percent_text reserved cs) ≡ done (some cs)
decode_loop-percent_text zero reserved cs hp hb hf = absurd (omega arith)
decode_loop-percent_text (suc fuel) reserved cs hp hb hf = elim (search_cases reserved cs) [
  | inl h ↦
      rw (percent_text-Misses reserved cs h)
        (decode_loop-plain fuel cs (Misses-weaker reserved (λ c. c == b'%') cs hp h))
  | inr (before, x, after, e, h, hx) ↦
      let bytes = All-behind IsByte before (x ∷ after) (subst (All IsByte) e hb) in
      let ih =
        decode_loop-percent_text fuel reserved after hp bytes.1
          (omega (arith, ap length e, length-append before (x ∷ after))) in
      rw (e, percent_text-append reserved before x after h hx)
        (decode_loop-percent fuel before (hex_char (x / 16)) (hex_char (x % 16))
            (percent_text reserved after) (Misses-weaker reserved (λ c. c == b'%') before hp h)
          ∙ rw (ih, digits-value x bytes.0)
              (ap (λ t. done (some t)) (append_assoc before (x ∷ []) after)))
]

length-percent_text :
    (reserved : ℕ → Bool) (cs : List ℕ) → length cs ≤ length (percent_text reserved cs)
length-percent_text reserved [] = omega arith
length-percent_text reserved (c ∷ cs) = elim (Bool-cases (reserved c)) [
  | inl h ↦ rw h (omega (arith, length-percent_text reserved cs))
  | inr h ↦ rw h (omega (arith, length-percent_text reserved cs))
]

-- Percent-encoded text of some bytes, with `%` among the reserved chars: `decode` ends and gives
-- the bytes back.
pub decode-percent_text :
    (reserved : ℕ → Bool) (cs : List ℕ)
    → ((c : ℕ) → (c == b'%') ≡ true → reserved c ≡ true)
    → All IsByte cs
    → decode (percent_text reserved cs) ≡ done (some cs)
unfolding decode
decode-percent_text reserved cs hp hb =
    let text = percent_text reserved cs in
    decode_loop-percent_text (suc (length text)) reserved cs hp hb
      (omega (arith, length-percent_text reserved cs))
