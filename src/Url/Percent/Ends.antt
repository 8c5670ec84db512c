-- ===== src/Url/Percent/Ends.antt =====
-- `decode` of src/url.cpp ends on every text.

use cppnet.Prelude.{
  Bool-cases, List, Option, arith, drop, inl, inr, leb, length, length-drop, refl, some, suc, take,
  zero, ℕ, ◌++◌, ◌+◌, ◌<◌, ◌==◌, ◌≡◌, ◌⊎◌,
}
use cppnet.Prelude.Memory.{Run, done, fault}
use cppnet.Prelude.Strings.{position, position-some, search_cases}
use cppnet.Url.Percent.{decode, decode_loop, from_chars, decoded}
use cppnet.Url.Percent.RoundTrip.{decode_loop-plain}

-- A run that has not run out of fuel: it faults, or it has a result.
abbrev pub Ends {ℓ} : {A : Type ℓ} → Run (Option A) → Type ℓ
Ends {A = A} r = (r ≡ fault) ⊎ ((x : A) × (r ≡ done (some x)))

pub Run-cases {ℓ} : {A : Type ℓ} (r : Run A) → (r ≡ fault) ⊎ ((a : A) × (r ≡ done a))
Run-cases fault = inl refl
Run-cases (done a) = inr (a, refl)

decode_loop-Ends : (fuel : ℕ) (str : List ℕ) → length str < fuel → Ends (decode_loop fuel str)
unfolding decode_loop
decode_loop-Ends zero str hf = absurd (omega arith)
decode_loop-Ends (suc fuel) str hf = elim (search_cases (λ c. c == b'%') str) [
  | inl h ↦ inr (str, decode_loop-plain fuel str h)
  | inr (before, x, after, e, h, hx) ↦
      let n = length before in
      let found : position (λ c. c == b'%') str ≡ some n =
        rw e (position-some (λ c. c == b'%') before x after h hx) in
      elim (Bool-cases (leb (n + 3) (length str))) [
        | inr out ↦ inl (rw (found, decode_loop, out) refl)
        | inl inside ↦
            let shorter : length (drop (n + 3) str) < fuel =
              ground (arith, inside, length-drop (n + 3) str) in
            elim (decode_loop-Ends fuel (drop (n + 3) str) shorter) [
              | inl bad ↦ inl (rw (found, decode_loop, inside, bad) refl)
              | inr (text, good) ↦ inr (
                decoded (from_chars (take 2 (drop (n + 1) str))) (take n str) ++ text,
                rw (found, decode_loop, inside, good) refl,
              )
            ]
      ]
]

-- `decode` ends, with a text or with the exception of `substr`.
pub decode-Ends : (str : List ℕ) → Ends (decode str)
unfolding decode
decode-Ends str = decode_loop-Ends (suc (length str)) str (omega arith)
