-- ===== src/Prelude/Bits.antt =====
-- Masks, shifts and joins of bit fields as arithmetic.
use Prim.Native.Nat.{
  ℕ, zero, suc, ◌+◌, ◌*◌, ◌/◌, ◌%◌, ◌^◌, ◌≤◌, ◌<◌, min, max, bit_and, bit_or, digits,
}
use Prim.Native.Nat.{bit_and-bitwise, bit_or-bitwise}
use mathlib.Core.Path.{◌≡◌, refl, ap}
use native.Mathlib.Omega.{arith}
use native.Mathlib.Nat.{pow-suc, le_refl}

-- Both operations are one recursion on the digits, for which any fuel above the first number serves.
module _ (z : ℕ → ℕ) (f : ℕ → ℕ → ℕ) where
  digits_fuel : (n m a b : ℕ) → a ≤ n → a ≤ m → digits z f n a b ≡ digits z f m a b
  digits_fuel zero zero a b hn hm = refl
  digits_fuel zero (suc m) zero b hn hm = refl
  digits_fuel zero (suc m) (suc a) b hn hm = absurd (omega arith)
  digits_fuel (suc n) zero zero b hn hm = refl
  digits_fuel (suc n) zero (suc a) b hn hm = absurd (omega arith)
  digits_fuel (suc n) (suc m) zero b hn hm = refl
  digits_fuel (suc n) (suc m) (suc a) b hn hm =
      ap (λ t. t * 2 + f (suc a % 2) (b % 2))
        (digits_fuel n m (suc a / 2) (b / 2) (omega arith) (omega arith))

zero-bit_or : (b : ℕ) → bit_or 0 b ≡ b
zero-bit_or b = bit_or-bitwise 0 b

zero-bit_and : (b : ℕ) → bit_and 0 b ≡ 0
zero-bit_and b = bit_and-bitwise 0 b

pub bit_or_step : (x y : ℕ) → bit_or x y ≡ max (x % 2) (y % 2) + 2 * bit_or (x / 2) (y / 2)
bit_or_step zero y = omega (arith, zero-bit_or y, zero-bit_or (y / 2))
bit_or_step (suc x) y =
    let half = suc x / 2 in
    let same = digits_fuel (λ k. k) max x half half (y / 2) (omega arith) (omega arith) in
    omega (arith, same, bit_or-bitwise half (y / 2), bit_or-bitwise (suc x) y)

pub bit_and_step : (x y : ℕ) → bit_and x y ≡ min (x % 2) (y % 2) + 2 * bit_and (x / 2) (y / 2)
bit_and_step zero y = omega (arith, zero-bit_and y, zero-bit_and (y / 2))
bit_and_step (suc x) y =
    let half = suc x / 2 in
    let same = digits_fuel (λ k. 0) min x half half (y / 2) (omega arith) (omega arith) in
    omega (arith, same, bit_and-bitwise half (y / 2), bit_and-bitwise (suc x) y)

or_zero : (n a : ℕ) → a ≤ n → bit_or a 0 ≡ a
or_zero n zero h = refl
or_zero zero (suc a) h = absurd (omega arith)
or_zero (suc n) (suc a) h =
    omega (arith, bit_or_step (suc a) 0, or_zero n (suc a / 2) (omega arith))

pub and_zero : (n a : ℕ) → a ≤ n → bit_and a 0 ≡ 0
and_zero n zero h = refl
and_zero zero (suc a) h = absurd (omega arith)
and_zero (suc n) (suc a) h =
    omega (arith, bit_and_step (suc a) 0, and_zero n (suc a / 2) (omega arith))

-- `(a << k) | b` where `b` has at most `k` bits.
pub bit_or_disjoint : (k a b : ℕ) → b < 2 ^ k → bit_or (a * 2 ^ k) b ≡ a * 2 ^ k + b
bit_or_disjoint zero a b h =
    let e : b ≡ 0 = omega arith in
    rw e (omega (arith, or_zero (a * 2 ^ 0) (a * 2 ^ 0) (omega arith)))
bit_or_disjoint (suc k) a b h =
    let q : ℕ = a * 2 ^ k in
    let twice : a * 2 ^ suc k ≡ q * 2 = omega (arith, ap (λ t. a * t) (pow-suc 2 k)) in
    let half : bit_or q (b / 2) ≡ q + b / 2 =
      bit_or_disjoint k a (b / 2) (omega (arith, pow-suc 2 k)) in
    rw twice (halves q b half)
  where
    halves : (q b : ℕ) → bit_or q (b / 2) ≡ q + b / 2 → bit_or (q * 2) b ≡ q * 2 + b
    halves q b half =
        let low : q * 2 / 2 ≡ q = omega arith in
        omega (arith, bit_or_step (q * 2) b, ap (λ t. bit_or t (b / 2)) low)

-- `a & 0x0f` and `a & 0x3f`.
pub bit_and_15 : (a : ℕ) → bit_and a 15 ≡ a % 16
bit_and_15 a = omega (
  arith,
  bit_and_step a 15,
  bit_and_step (a / 2) 7,
  bit_and_step (a / 2 / 2) 3,
  bit_and_step (a / 2 / 2 / 2) 1,
  and_zero _ (a / 2 / 2 / 2 / 2) (le_refl _),
)

pub bit_and_63 : (a : ℕ) → bit_and a 63 ≡ a % 64
bit_and_63 a = omega (arith, bit_and_step a 63, bit_and_step (a / 2) 31, bit_and_15 (a / 2 / 2))
