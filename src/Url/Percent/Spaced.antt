-- ===== src/Url/Percent/Spaced.antt =====
-- How far `encode` writes percent-encoded text: it goes on searching at the index in the rest where
-- it found the last char in what came before.

use cppnet.Prelude.{
  Bool, List, [], ap, arith, drop, drop-append_short, length, length-drop, none, refl, some, suc,
  true, zero, ℕ, ◌%◌, ◌++◌, ◌+◌, ◌/◌, ◌<◌, ◌∙◌, ◌∷◌, ◌≡◌, ◌≤◌, drop-append, drop-drop,
  length-append, sym, take-append, ==_iff, All, IsByte,
}
use cppnet.Prelude.Memory.{done, read-append, ◌>>=◌}
use cppnet.Prelude.Strings.{position, find_from, one_of, Misses, position-none, position-some}
use cppnet.Url.Percent.{encode_loop, encode, hex_char, char_text, decode}
use mathlib.Core.Path.{subst}
use cppnet.Url.Percent.RoundTrip.{
  percent_text, percent_text-Misses, percent_text-append, decode-percent_text,
}

-- Where the reserved chars are below 128 and from 16 on, `char_text` writes two digits.
char_text-digits :
    (c : ℕ) → 16 ≤ c → c < 128 → char_text c ≡ done (hex_char (c / 16) ∷ hex_char (c % 16) ∷ [])
unfolding char_text
char_text-digits c lo hi = ground arith

-- No gap in front of a reserved char is smaller than the gap before it, and the first has at least
-- `i` chars.
pub data Spaced (reserved : ℕ → Bool) : ℕ → List ℕ → Type 0 where
  no_more : {i : ℕ} (cs : List ℕ) → Misses reserved cs → Spaced reserved i cs
  one_more :
      {i : ℕ} (before : List ℕ) (x : ℕ) (after : List ℕ)
      → i ≤ length before
      → Misses reserved before
      → reserved x ≡ true
      → Spaced reserved (length before) after
      → Spaced reserved i (before ++ (x ∷ after))

Misses-drop : (test : ℕ → Bool) (i : ℕ) (cs : List ℕ) → Misses test cs → Misses test (drop i cs)
Misses-drop test zero cs h = h
Misses-drop test (suc i) [] h = tt
Misses-drop test (suc i) (c ∷ cs) h = Misses-drop test i cs h.1

found_at :
    (test : ℕ → Bool) (i : ℕ) (before : List ℕ) (x : ℕ) (after : List ℕ)
    → i ≤ length before
    → Misses test before
    → test x ≡ true
    → find_from test (before ++ (x ∷ after)) i ≡ some (length before)
found_at test i before x after hi h hx =
    ap (λ o. elim o [ some k ↦ some (i + k) | none ↦ none ])
      (ap (position test) (drop-append_short i before (x ∷ after) hi)
        ∙ position-some test (drop i before) x after (Misses-drop test i before h) hx)
    ∙ ap some (omega (arith, length-drop i before))

encode_loop-percent_text :
    (fuel : ℕ) (reserved : List ℕ) (cs : List ℕ) (i : ℕ)
    → ((c : ℕ) → one_of reserved c ≡ true → (16 ≤ c) × (c < 128))
    → Spaced (one_of reserved) i cs
    → length cs < fuel
    → encode_loop fuel reserved cs i ≡ done (some (percent_text (one_of reserved) cs))
unfolding encode_loop
encode_loop-percent_text zero reserved cs i hr sp hf = absurd (omega arith)
encode_loop-percent_text (suc fuel) reserved cs i hr (no_more _ h) hf =
    let test = one_of reserved in
    let none_left : find_from test cs i ≡ none =
      ap (λ o. elim o [ some k ↦ some (i + k) | none ↦ none ])
        (position-none test (drop i cs) (Misses-drop test i cs h)) in
    rw (none_left, encode_loop, percent_text-Misses test cs h) refl
encode_loop-percent_text (suc fuel) reserved cs i hr (one_more before x after hi h hx sp) hf =
    let test = one_of reserved in
    let n = length before in
    let bounds = hr x hx in
    let rest : drop (n + 1) (before ++ (x ∷ after)) ≡ after =
      sym (drop-drop n 1 (before ++ (x ∷ after)))
      ∙ ap (drop 1) (drop-append before (x ∷ after) n refl) in
    let ih =
      encode_loop-percent_text fuel reserved after n hr sp
        (omega (arith, length-append before (x ∷ after))) in
    rw
      (
        found_at test i before x after hi h hx,
        encode_loop,
        read-append before x after n refl,
        char_text-digits x bounds.0 bounds.1,
        rest,
        ih,
        take-append before (x ∷ after) n refl,
        percent_text-append test before x after h hx,
      )
      refl

-- A text in which no gap between reserved chars is smaller than the gap before it, with reserved
-- chars from 16 on and below 128: `encode` ends and replaces each of them by a percent sign and
-- two hex digits.
encode-percent_text :
    (reserved cs : List ℕ)
    → ((c : ℕ) → one_of reserved c ≡ true → (16 ≤ c) × (c < 128))
    → Spaced (one_of reserved) 0 cs
    → encode reserved cs ≡ done (some (percent_text (one_of reserved) cs))
unfolding encode
encode-percent_text reserved cs hr sp =
    encode_loop-percent_text (suc (length cs)) reserved cs 0 hr sp (omega arith)

-- For such a text of bytes, with `%` among the reserved chars: `decode` undoes `encode`.
pub decode-encode-Spaced :
    (reserved cs : List ℕ)
    → ((c : ℕ) → one_of reserved c ≡ true → (16 ≤ c) × (c < 128))
    → one_of reserved b'%' ≡ true
    → All IsByte cs
    → Spaced (one_of reserved) 0 cs
    → (encode reserved cs >>= λ o. elim o [ none ↦ done none | some text ↦ decode text ])
      ≡ done (some cs)
decode-encode-Spaced reserved cs hr hp hb sp = rw (encode-percent_text reserved cs hr sp) (
    decode-percent_text (one_of reserved) cs
      (λ c h. subst (λ x. one_of reserved x ≡ true) (sym ((==_iff c b'%').0 h)) hp) hb)
