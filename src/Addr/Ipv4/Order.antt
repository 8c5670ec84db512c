-- ===== src/Addr/Ipv4/Order.antt =====
-- An address as a number of 32 bits, and the order of addresses.

use cppnet.Prelude.{
  arith, bit_or, if◌then◌else◌, ltb, ℕ, ◌*◌, ◌+◌, ◌<◌, ◌^◌, ◌∙◌, ◌≡◌, Bool-cases, List, [], inl,
  inr, refl, sym, ◌%◌, ◌/◌, ◌∷◌, ap, ap₂,
}
use cppnet.Prelude.Bits.{bit_or_disjoint}
use cppnet.Addr.Ipv4.{
  Ipv4Addr, of_number, to_number, AddrOrder, less, greater, equivalent, compare_bytes, compare_addr,
}

abbrev pub IsAddr : Ipv4Addr → Type 0
IsAddr a = (a.b0 < 256) × (a.b1 < 256) × (a.b2 < 256) × (a.b3 < 256)

to_number-sum :
    (a : Ipv4Addr) → IsAddr a → to_number a ≡ a.b0 * 2 ^ 24 + a.b1 * 2 ^ 16 + a.b2 * 2 ^ 8 + a.b3
unfolding to_number
to_number-sum a (h0, h1, h2, h3) =
    let first : bit_or (a.b0 * 2 ^ 24) (a.b1 * 2 ^ 16) ≡ (a.b0 * 256 + a.b1) * 2 ^ 16 =
      omega (arith, bit_or_disjoint 24 a.b0 (a.b1 * 2 ^ 16) (omega arith)) in
    let second : bit_or ((a.b0 * 256 + a.b1) * 2 ^ 16) (a.b2 * 2 ^ 8)
        ≡ (a.b0 * 65536 + a.b1 * 256 + a.b2) * 2 ^ 8 =
      omega (arith, bit_or_disjoint 16 (a.b0 * 256 + a.b1) (a.b2 * 2 ^ 8) (omega arith)) in
    rw (first, second)
      (omega (arith, bit_or_disjoint 8 (a.b0 * 65536 + a.b1 * 256 + a.b2) a.b3 (omega arith)))

-- The number of an address, and the address of a number of 32 bits.
of_number-to_number : (a : Ipv4Addr) → IsAddr a → of_number (to_number a) ≡ a
unfolding of_number
of_number-to_number a (h0, h1, h2, h3) =
    let n = to_number a in
    let sum = to_number-sum a (h0, h1, h2, h3) in
    let e0 : n / 2 ^ 24 % 256 ≡ a.b0 = omega arith in
    let e1 : n / 2 ^ 16 % 256 ≡ a.b1 = omega arith in
    let e2 : n / 2 ^ 8 % 256 ≡ a.b2 = omega arith in
    let e3 : n % 256 ≡ a.b3 = omega arith in rw (e0, e1, e2, e3) refl

to_number-of_number : (n : ℕ) → n < 2 ^ 32 → to_number (of_number n) ≡ n
unfolding of_number
to_number-of_number n h =
    to_number-sum (of_number n) (omega arith, omega arith, omega arith, omega arith) ∙ omega arith

-- The order of two numbers.
abbrev pub number_order : ℕ → ℕ → AddrOrder
number_order x y = if ltb x y then less else if ltb y x then greater else equivalent

abbrev then_order : AddrOrder → AddrOrder → AddrOrder
then_order less o = less
then_order greater o = greater
then_order equivalent o = o

then_order_assoc :
    (a b c : AddrOrder) → then_order (then_order a b) c ≡ then_order a (then_order b c)
then_order_assoc less b c = refl
then_order_assoc greater b c = refl
then_order_assoc equivalent b c = refl

number_order-digits :
    (x y r s : ℕ)
    → r < 256
    → s < 256
    → number_order (x * 256 + r) (y * 256 + s) ≡ then_order (number_order x y) (number_order r s)
number_order-digits x y r s hr hs = ground arith

compare_bytes-cons :
    (x y : ℕ) (xs ys : List ℕ)
    → compare_bytes (x ∷ xs) (y ∷ ys) ≡ then_order (number_order x y) (compare_bytes xs ys)
unfolding compare_bytes
compare_bytes-cons x y xs ys = elim (Bool-cases (ltb x y)) [
  | inl e ↦ rw e refl
  | inr e ↦ elim (Bool-cases (ltb y x)) [ inl h ↦ rw (e, h) refl | inr h ↦ rw (e, h) refl ]
]

compare_bytes-one : (x y : ℕ) → compare_bytes (x ∷ []) (y ∷ []) ≡ number_order x y
unfolding compare_bytes
compare_bytes-one x y = refl

-- Addresses are ordered as their numbers are.
pub compare_addr-to_number :
    (a b : Ipv4Addr)
    → IsAddr a
    → IsAddr b
    → compare_addr a b ≡ number_order (to_number a) (to_number b)
unfolding compare_addr
compare_addr-to_number a b (ha0, ha1, ha2, ha3) (hb0, hb1, hb2, hb3) =
    let horner_a : to_number a ≡ ((a.b0 * 256 + a.b1) * 256 + a.b2) * 256 + a.b3 =
      omega (arith, to_number-sum a (ha0, ha1, ha2, ha3)) in
    let horner_b : to_number b ≡ ((b.b0 * 256 + b.b1) * 256 + b.b2) * 256 + b.b3 =
      omega (arith, to_number-sum b (hb0, hb1, hb2, hb3)) in
    let o0 = number_order a.b0 b.b0 in
    let o1 = number_order a.b1 b.b1 in
    let o2 = number_order a.b2 b.b2 in
    let o3 = number_order a.b3 b.b3 in
    let listed : compare_addr a b ≡ then_order o0 (then_order o1 (then_order o2 o3)) =
      compare_bytes-cons a.b0 b.b0 (a.b1 ∷ a.b2 ∷ a.b3 ∷ []) (b.b1 ∷ b.b2 ∷ b.b3 ∷ [])
      ∙ ap (then_order o0) (
          compare_bytes-cons a.b1 b.b1 (a.b2 ∷ a.b3 ∷ []) (b.b2 ∷ b.b3 ∷ [])
          ∙ ap (then_order o1) (
              compare_bytes-cons a.b2 b.b2 (a.b3 ∷ []) (b.b3 ∷ [])
              ∙ ap (then_order o2) (compare_bytes-one a.b3 b.b3))) in
    let counted : number_order (to_number a) (to_number b)
        ≡ then_order (then_order (then_order o0 o1) o2) o3 =
      ap₂ number_order horner_a horner_b
      ∙ number_order-digits ((a.b0 * 256 + a.b1) * 256 + a.b2) ((b.b0 * 256 + b.b1) * 256 + b.b2)
          a.b3 b.b3 ha3 hb3
      ∙ ap (λ o. then_order o o3)
          (number_order-digits (a.b0 * 256 + a.b1) (b.b0 * 256 + b.b1) a.b2 b.b2 ha2 hb2
            ∙ ap (λ o. then_order o o2) (number_order-digits a.b0 b.b0 a.b1 b.b1 ha1 hb1)) in
    listed
    ∙ sym (then_order_assoc (then_order o0 o1) o2 o3 ∙ then_order_assoc o0 o1 (then_order o2 o3))
    ∙ sym counted
