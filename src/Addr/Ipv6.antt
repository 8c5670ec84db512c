-- ===== src/Addr/Ipv6.antt =====
-- src/ipv6_addr.cpp and include/ipv6_addr.hpp. The class `ipv6_addr` is the list of its 16 bytes.
pub mod Text
use cppnet.Prelude.{
  map, ℕ, List, Bool, Option, [], ◌∷◌, ◌++◌, ◌+◌, ◌-◌, ◌*◌, ◌/◌, ◌%◌, ◌^◌, ◌&&◌, ◌==◌, bit_and,
  bit_or, if◌then◌else◌, ltb, leb, none, some, suc, zero, true, false, set, replicate,
}
use cppnet.Prelude.Memory.{Run, done, fault}
use cppnet.Util.StringUtil.{split_string}

abbrev pub Ipv6Addr : Type 0
Ipv6Addr = List ℕ

-- The constructor from eight numbers of 16 bits.
abbrev pub of_parts : List ℕ → Ipv6Addr
of_parts [] = []
of_parts (p ∷ parts) = (p / 2 ^ 8 % 256) ∷ (p % 256) ∷ of_parts parts

abbrev pub loopback : Ipv6Addr
loopback = of_parts (0 ∷ 0 ∷ 0 ∷ 0 ∷ 0 ∷ 0 ∷ 0 ∷ 1 ∷ [])

-- The value of a digit in base 16.
abbrev pub digit_value : ℕ → Option ℕ
digit_value c =
    if leb b'0' c && leb c b'9'
    then some (c - b'0')
    else if leb b'a' c && leb c b'f'
    then some (c - b'a' + 10)
    else if leb b'A' c && leb c b'F'
    then some (c - b'A' + 10)
    else none

-- The number that the digits up to another char stand for, behind a number that is read.
abbrev pub digits_number : ℕ → List ℕ → ℕ
digits_number value [] = value
digits_number value (c ∷ cs) = elim (digit_value c) [
  | none ↦ value
  | some d ↦ digits_number (value * 16 + d) cs
]

-- `std::from_chars` into 16 bits, in base 16.
abbrev pub part_of_chars : List ℕ → Option ℕ
part_of_chars [] = none
part_of_chars (c ∷ cs) = elim (digit_value c) [
  | none ↦ none
  | some d ↦ let value = digits_number d cs in if ltb value (2 ^ 16) then some value else none
]

-- The loop of `parse`, with `n` elements of the array left in front of its iterator.
parse_groups : List (List ℕ) → ℕ → List ℕ → Run (Option Ipv6Addr)
parse_groups [] n values = done (some (of_parts values))
parse_groups (part ∷ parts) zero values = elim (part_of_chars part) [
  | none ↦ done none
  | some v ↦ fault
]
parse_groups (part ∷ parts) (suc n) values = elim (part_of_chars part) [
  | none ↦ done none
  | some v ↦ parse_groups parts n (set values n v)
]

-- `ipv6_addr::parse`, if the split ends.
pub parse_ipv6 : List ℕ → Option (Run (Option Ipv6Addr))
unfolding parse_groups
parse_ipv6 str = elim (split_string str b':' 0) [
  | none ↦ none
  | some parts ↦ some (parse_groups parts 8 (replicate 8 0))
]

abbrev pub hex_char : ℕ → ℕ
hex_char d = if ltb d 10 then d + b'0' else d - 10 + b'a'

-- The digits of 16 bits in base 16, without zeros in front.
abbrev pub part_digits : ℕ → List ℕ
part_digits v =
    if ltb v (2 ^ 4)
    then v ∷ []
    else if ltb v (2 ^ 8)
    then (v / 2 ^ 4) ∷ (v % 2 ^ 4) ∷ []
    else if ltb v (2 ^ 12)
    then (v / 2 ^ 8) ∷ (v / 2 ^ 4 % 2 ^ 4) ∷ (v % 2 ^ 4) ∷ []
    else (v / 2 ^ 12) ∷ (v / 2 ^ 8 % 2 ^ 4) ∷ (v / 2 ^ 4 % 2 ^ 4) ∷ (v % 2 ^ 4) ∷ []

-- `std::to_chars` of 16 bits, in base 16.
abbrev pub part_text : ℕ → List ℕ
part_text v = map hex_char (part_digits v)

-- Two bytes of the array, as `to_string` puts them together.
abbrev pub hexit : ℕ → ℕ → ℕ
hexit high low = bit_or (high * 2 ^ 8) low

-- The loop of `to_string`, from the last two bytes of the array on: the texts of the bytes, the last
-- ones first, in front of the text of the first two.
abbrev pub texts_before : Ipv6Addr → List ℕ → List ℕ
texts_before (high ∷ low ∷ bytes) text =
    texts_before bytes (part_text (hexit high low) ++ (b':' ∷ text))
texts_before bytes text = text

unfoldable pub ipv6_to_string : Ipv6Addr → List ℕ
ipv6_to_string (high ∷ low ∷ bytes) = texts_before bytes (part_text (hexit high low))
ipv6_to_string bytes = []

-- The last byte is one, and all others are zero.
pub is_ipv6_loopback : Ipv6Addr → Bool
is_ipv6_loopback [] = false
is_ipv6_loopback (b ∷ []) = b == 1
is_ipv6_loopback (b ∷ c ∷ bytes) = b == 0 && is_ipv6_loopback (c ∷ bytes)

pub is_unique_local : Ipv6Addr → Bool
is_unique_local [] = false
is_unique_local (b ∷ bytes) = bit_and b 0xfc == 0xfc

abbrev pub zeros : ℕ → Ipv6Addr → Bool
zeros zero bytes = true
zeros (suc n) [] = false
zeros (suc n) (b ∷ bytes) = b == 0 && zeros n bytes

pub is_link_local : Ipv6Addr → Bool
is_link_local (b ∷ c ∷ bytes) = b == 0xfe && (c == 0x80 && zeros 6 bytes)
is_link_local bytes = false

pub is_multicast : Ipv6Addr → Bool
is_multicast [] = false
is_multicast (b ∷ bytes) = b == 0xff
