-- ===== src/Addr/Ipv4/Private.antt =====
-- The private networks, as ranges of numbers of 32 bits.

use cppnet.Prelude.{
  Bool, all_below, all_below_sound, arith, bit_and, leb, refl, true, ℕ, ◌%◌, ◌&&◌, ◌/◌, ◌<◌, ◌==◌,
  ◌^◌, ◌||◌, ◌≡◌, not, IsByte, if◌then◌else◌,
}
use cppnet.Addr.Ipv4.{of_number, is_private_network}

abbrev pub in_range : ℕ → ℕ → ℕ → Bool
in_range n first last = leb first n && leb n last

abbrev same_half : ℕ → Bool
same_half b = if bit_and b 0xf0 == 0x10 then b / 16 == 1 else not (b / 16 == 1)

same_half_table : all_below 256 same_half ≡ true
same_half_table = refl

high_half : (b : ℕ) → IsByte b → (bit_and b 0xf0 == 0x10) ≡ (b / 16 == 1)
high_half b h =
    let same : same_half b ≡ true = all_below_sound 256 same_half b same_half_table h in
    ground (arith, same)

-- The address of a number below 2^32 is taken as private exactly if the number lies in 10.0.0.0/8
-- or in 172.16.0.0/12, or if it lies in 192.0.0.0/8 and its third byte is 168.
pub is_private_network-of_number :
    (n : ℕ)
    → n < 2 ^ 32
    → is_private_network (of_number n) ≡ (
        in_range n 0x0a000000 0x0affffff
        || (in_range n 0xac100000 0xac1fffff
            || (in_range n 0xc0000000 0xc0ffffff && n / 2 ^ 8 % 256 == 168)))
unfolding is_private_network of_number
is_private_network-of_number n h =
    let ten : (n / 2 ^ 24 % 256 == 10) ≡ in_range n 0x0a000000 0x0affffff = ground arith in
    let twelve : (n / 2 ^ 24 % 256 == 172 && n / 2 ^ 16 % 256 / 16 == 1)
        ≡ in_range n 0xac100000 0xac1fffff =
      ground arith in
    let eight : (n / 2 ^ 24 % 256 == 192) ≡ in_range n 0xc0000000 0xc0ffffff = ground arith in
    rw (high_half (n / 2 ^ 16 % 256) (omega arith), ten, twelve, eight) refl
