-- ===== src/Prelude/Chars.antt =====
-- `std::from_chars` and `std::to_chars` in base 10.
use Prim.Native.Nat.{ℕ, zero, suc, ◌+◌, ◌-◌, ◌*◌, ◌/◌, ◌%◌, ◌^◌, ◌<◌}
use mathlib.Core.Path.{◌≡◌, refl, ap, sym, ◌∙◌}
use mathlib.Core.Logic.{inl, inr}
use mathlib.Core.Bool.{Bool, true, false, ◌&&◌}
use mathlib.Core.List.{List, [], ◌∷◌, ◌++◌, append_assoc}
use native.Mathlib.Omega.{arith}
use native.Mathlib.Nat.{pow-suc}
use cppnet.Prelude.Lists.{All, All-append}
use cppnet.Prelude.Strings.{Misses}
use cppnet.Prelude.Tests.{ltb, leb, if◌then◌else◌, Bool-cases}

abbrev pub is_digit : ℕ → Bool
is_digit c = leb b'0' c && leb c b'9'

-- The number that the digits up to another char stand for, behind a number that is read.
abbrev pub digits_value : ℕ → List ℕ → ℕ
digits_value value [] = value
digits_value value (c ∷ cs) =
    if is_digit c then digits_value (value * 10 + (c - b'0')) cs else value

-- A value, or the number of a `std::errc`.
pub data Parsed : Type 0 where
  number : ℕ → Parsed
  refused : ℕ → Parsed

abbrev pub bounded : ℕ → ℕ → Parsed
bounded bound value = if ltb value bound then number value else refused 34

-- `std::from_chars` into an unsigned type of values below `bound`: the digits up to another char,
-- at least one. `invalid_argument` is 22, and `result_out_of_range` is 34.
abbrev pub from_chars : ℕ → List ℕ → Parsed
from_chars bound [] = refused 22
from_chars bound (c ∷ cs) =
    if is_digit c then bounded bound (digits_value 0 (c ∷ cs)) else refused 22

-- `std::to_chars` in base 10, of a number of at most `n` digits.
abbrev pub decimal_text : ℕ → ℕ → List ℕ
decimal_text zero v = []
decimal_text (suc n) v =
    if ltb v 10 then (v + b'0') ∷ [] else decimal_text n (v / 10) ++ ((v % 10 + b'0') ∷ [])

-- Behind the text of a number, no digit follows.
abbrev pub NoDigit : List ℕ → Type 0
NoDigit [] = Unit
NoDigit (c ∷ cs) = is_digit c ≡ false

digits_value-digit :
    (value d : ℕ) (tail : List ℕ)
    → d < 10
    → digits_value value ((d + b'0') ∷ tail) ≡ digits_value (value * 10 + d) tail
digits_value-digit value d tail h =
    let digit : is_digit (d + b'0') ≡ true = ground arith in
    rw digit (ap (λ x. digits_value (value * 10 + x) tail) (omega arith))

digits_value-decimal_text :
    (k v : ℕ) (tail : List ℕ)
    → v < 10 ^ k
    → digits_value 0 (decimal_text k v ++ tail) ≡ digits_value v tail
digits_value-decimal_text zero v tail h = ap (λ x. digits_value x tail) (omega arith)
digits_value-decimal_text (suc k) v tail h = elim (Bool-cases (ltb v 10)) [
  | inl small ↦ rw small (
      digits_value-digit 0 v tail (ground (arith, small))
      ∙ ap (λ x. digits_value x tail) (omega arith))
  | inr large ↦
      let last = (v % 10 + b'0') ∷ [] in
      let power : 10 ^ suc k ≡ 10 ^ k * 10 = omega (arith, pow-suc 10 k) in
      rw large (
        ap (digits_value 0) (append_assoc (decimal_text k (v / 10)) last tail)
        ∙ digits_value-decimal_text k (v / 10) ((v % 10 + b'0') ∷ tail) (omega arith)
        ∙ digits_value-digit (v / 10) (v % 10) tail (omega arith)
        ∙ ap (λ x. digits_value x tail) (omega arith))
]

digits_value-NoDigit : (v : ℕ) (tail : List ℕ) → NoDigit tail → digits_value v tail ≡ v
digits_value-NoDigit v [] h = refl
digits_value-NoDigit v (c ∷ cs) h = rw h refl

-- The text starts with a digit.
decimal_text-head :
    (k v : ℕ)
    → v < 10 ^ k
    → 0 < k
    → (c : ℕ) × (cs : List ℕ) × (decimal_text k v ≡ c ∷ cs) × (is_digit c ≡ true)
decimal_text-head zero v h hk = absurd (omega arith)
decimal_text-head (suc zero) v h hk =
    let small : ltb v 10 ≡ true = ground arith in
    (v + b'0', [], rw small refl, ground (arith, small))
decimal_text-head (suc (suc k)) v h hk = elim (Bool-cases (ltb v 10)) [
  | inl small ↦ (v + b'0', [], rw small refl, ground (arith, small))
  | inr large ↦
      let power : 10 ^ suc (suc k) ≡ 10 ^ suc k * 10 = omega (arith, pow-suc 10 (suc k)) in
      let first = decimal_text-head (suc k) (v / 10) (omega arith) (omega arith) in
      let last = (v % 10 + b'0') ∷ [] in
      (first.0, first.1 ++ last, rw large (ap (λ t. t ++ last) first.2), first.3)
]

-- A number is read back from its text, up to another char.
pub from_chars-decimal_text :
    (bound k v : ℕ) (tail : List ℕ)
    → v < bound
    → v < 10 ^ k
    → 0 < k
    → NoDigit tail
    → from_chars bound (decimal_text k v ++ tail) ≡ number v
from_chars-decimal_text bound k v tail hb h hk ht =
    let first = decimal_text-head k v h hk in
    let value : digits_value 0 (first.0 ∷ (first.1 ++ tail)) ≡ v =
      ap (λ t. digits_value 0 (t ++ tail)) (sym first.2)
      ∙ digits_value-decimal_text k v tail h
      ∙ digits_value-NoDigit v tail ht in
    let below : ltb v bound ≡ true = ground arith in
    ap (λ t. from_chars bound (t ++ tail)) first.2
    ∙ ap
        (λ b.
          if b then bounded bound (digits_value 0 (first.0 ∷ (first.1 ++ tail))) else refused 22)
        first.3
    ∙ ap (bounded bound) value
    ∙ ap (λ b. if b then number v else refused 34) below

-- The chars of the text of a number are digits.
pub decimal_text-digits : (k v : ℕ) → All (λ c. is_digit c ≡ true) (decimal_text k v)
decimal_text-digits zero v = tt
decimal_text-digits (suc k) v = elim (Bool-cases (ltb v 10)) [
  | inl small ↦ rw small (ground (arith, small), tt)
  | inr large ↦ rw large (
      All-append (λ c. is_digit c ≡ true) (decimal_text k (v / 10)) ((v % 10 + b'0') ∷ [])
        (decimal_text-digits k (v / 10)) (digit (v % 10) (omega arith), tt))
]
  where
    digit : (d : ℕ) → d < 10 → is_digit (d + b'0') ≡ true
    digit d h = ground arith

-- A char that is no digit is not among them.
pub decimal_text-Misses :
    (test : ℕ → Bool) (k v : ℕ)
    → ((c : ℕ) → is_digit c ≡ true → test c ≡ false)
    → Misses test (decimal_text k v)
decimal_text-Misses test k v h = All_map (decimal_text k v) (decimal_text-digits k v)
  where
    All_map : (cs : List ℕ) → All (λ c. is_digit c ≡ true) cs → Misses test cs
    All_map [] hs = tt
    All_map (c ∷ cs) hs = (h c hs.0, All_map cs hs.1)
