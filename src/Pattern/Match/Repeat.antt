-- ===== src/Pattern/Match/Repeat.antt =====
-- A literal that may be repeated.

use cppnet.Prelude.{
  ℕ, List, ◌≡◌, ◌<◌, ◌≤◌, ◌+◌, ◌%◌, ◌^◌, true, false, length, refl, arith, drop, some, suc, zero,
  inl, inr, leb, Bool-cases, length-drop,
}
use cppnet.Prelude.Memory.{done}
use cppnet.Prelude.Strings.{starts_with, starts_with-length}
use cppnet.Pattern.Match.{literal, zero_or_more, state_loop, state_match, State}

-- The copies of a text from an offset on, up to the place where no other one follows.
pub data Copies : List ℕ → List ℕ → ℕ → ℕ → Type 0 where
  no_copy :
      (text str : List ℕ) (offset : ℕ)
      → starts_with (drop offset str) text ≡ false
      → Copies text str offset offset
  one_copy :
      (text str : List ℕ) (offset end : ℕ)
      → starts_with (drop offset str) text ≡ true
      → Copies text str (offset + length text) end
      → Copies text str offset end

leb-true : (a b : ℕ) → a ≤ b → leb a b ≡ true
leb-true a b h = ground arith

abbrev pub repeated : List ℕ → State
repeated text = record { impl = literal text; rep = zero_or_more }

state_loop-Copies :
    (fuel : ℕ) (text str : List ℕ) (count offset : ℕ)
    → 0 < length text
    → offset ≤ length str
    → length str < fuel + offset
    → (end : ℕ) × (state_loop fuel (repeated text) str count offset ≡ done (some (true, end)))
      × Copies text str offset end
unfolding state_loop
state_loop-Copies zero text str count offset lt le enough = absurd (omega arith)
state_loop-Copies (suc fuel) text str count offset lt le enough =
    elim (Bool-cases (starts_with (drop offset str) text)) [
      | inr h ↦ (offset, rw (leb-true offset (length str) le, h) refl, no_copy text str offset h)
      | inl h ↦
          let fits = starts_with-length (drop offset str) text h in
          let inside : offset + length text ≤ length str = omega (arith, length-drop offset str) in
          let next =
            state_loop-Copies fuel text str ((count + 1) % 2 ^ 64) (offset + length text) lt inside
              (omega arith) in
          (
            next.0,
            rw (leb-true offset (length str) le, h) next.1,
            one_copy text str offset next.0 h next.2,
          )
    ]

-- `match` of a literal that is not empty, zero or more times, at an offset up to the end of the
-- input: with a round more than the input has chars it ends, matches, and passes copies of the
-- literal up to a place where no other one follows.
pub state_match-Copies :
    (text str : List ℕ) (offset : ℕ)
    → 0 < length text
    → offset ≤ length str
    → (end : ℕ) × (state_match (length str + 1) (repeated text) str offset
        ≡ done (some (true, end)))
      × Copies text str offset end
unfolding state_match
state_match-Copies text str offset lt le =
    state_loop-Copies (length str + 1) text str 0 offset lt le (omega arith)
