-- ===== src/Addr/Ipv4.antt =====
-- src/ipv4_addr.cpp and include/ipv4_addr.hpp.
pub mod Text
pub mod Order
pub mod Private
use cppnet.Prelude.{
  Bool, List, Option, [], bit_and, bit_or, if◌then◌else◌, ltb, none, some, suc, zero, ℕ, ◌%◌, ◌&&◌,
  ◌*◌, ◌++◌, ◌+◌, ◌/◌, ◌==◌, ◌^◌, ◌||◌, ◌∷◌,
}
use cppnet.Prelude.Chars.{is_digit, digits_value}
use cppnet.Prelude.Memory.{Run, done, fault}
use cppnet.Util.StringUtil.{split_string}

-- The class `ipv4_addr`, with the four elements of its array.
pub record Ipv4Addr : Type 0 where
  pub b0 : ℕ
  pub b1 : ℕ
  pub b2 : ℕ
  pub b3 : ℕ

abbrev pub loopback : Ipv4Addr
loopback = record { b0 = 127; b1 = 0; b2 = 0; b3 = 1 }

-- The constructor from a number of 32 bits, and the conversion to one.
pub of_number : ℕ → Ipv4Addr
of_number addr = record {
  b0 = addr / 2 ^ 24 % 256;
  b1 = addr / 2 ^ 16 % 256;
  b2 = addr / 2 ^ 8 % 256;
  b3 = addr % 256;
}

pub to_number : Ipv4Addr → ℕ
to_number a = bit_or (bit_or (bit_or (a.b0 * 2 ^ 24) (a.b1 * 2 ^ 16)) (a.b2 * 2 ^ 8)) a.b3

pub is_loopback : Ipv4Addr → Bool
is_loopback a = a.b0 == 127

pub is_private_network : Ipv4Addr → Bool
is_private_network a =
    a.b0 == 10 || ((a.b0 == 172 && bit_and a.b1 0xf0 == 0x10) || (a.b0 == 192 && a.b2 == 168))

-- `std::to_chars` of a byte, in base 10.
abbrev pub decimal : ℕ → List ℕ
decimal v =
    if ltb v 10
    then (v + b'0') ∷ []
    else if ltb v 100
    then (v / 10 + b'0') ∷ (v % 10 + b'0') ∷ []
    else (v / 100 + b'0') ∷ (v / 10 % 10 + b'0') ∷ (v % 10 + b'0') ∷ []

-- `std::from_chars` into a byte: the digits up to another char, at least one, below 256.
abbrev pub byte_of_chars : List ℕ → Option ℕ
byte_of_chars [] = none
byte_of_chars (c ∷ cs) =
    let value = digits_value 0 (c ∷ cs) in if is_digit c && ltb value 256 then some value else none

abbrev pub set_byte : ℕ → ℕ → Ipv4Addr → Ipv4Addr
set_byte i v a =
    if i == 0
    then record a { b0 = v }
    else if i == 1
    then record a { b1 = v }
    else if i == 2
    then record a { b2 = v }
    else record a { b3 = v }

-- The loop of `parse`, with `n` elements of the array left in front of its iterator.
parse_parts : List (List ℕ) → ℕ → Ipv4Addr → Run (Option Ipv4Addr)
parse_parts [] n a = done (some a)
parse_parts (part ∷ parts) zero a = elim (byte_of_chars part) [ none ↦ done none | some v ↦ fault ]
parse_parts (part ∷ parts) (suc n) a = elim (byte_of_chars part) [
  | none ↦ done none
  | some v ↦ parse_parts parts n (set_byte n v a)
]

-- `ipv4_addr::parse`, if the split ends.
pub parse : List ℕ → Option (Run (Option Ipv4Addr))
unfolding parse_parts
parse str = elim (split_string str b'.' 0) [
  | none ↦ none
  | some parts ↦ some (parse_parts parts 4 (record { b0 = 0; b1 = 0; b2 = 0; b3 = 0 }))
]

-- `to_string`, from the last element of the array to the first.
unfoldable pub to_string : Ipv4Addr → List ℕ
to_string a =
    decimal a.b3 ++ (b'.' ∷ (decimal a.b2 ++ (b'.' ∷ (decimal a.b1 ++ (b'.' ∷ decimal a.b0)))))

pub data AddrOrder : Type 0 where
  less : AddrOrder
  greater : AddrOrder
  equivalent : AddrOrder

-- `operator<=>`, whose loop compares the elements one after the other.
compare_bytes : List ℕ → List ℕ → AddrOrder
compare_bytes (x ∷ xs) (y ∷ ys) =
    if ltb x y then less else if ltb y x then greater else compare_bytes xs ys
compare_bytes xs ys = equivalent

abbrev pub bytes : Ipv4Addr → List ℕ
bytes a = a.b0 ∷ a.b1 ∷ a.b2 ∷ a.b3 ∷ []

pub compare_addr : Ipv4Addr → Ipv4Addr → AddrOrder
unfolding compare_bytes
compare_addr lhs rhs = compare_bytes (bytes lhs) (bytes rhs)
