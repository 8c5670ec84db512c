-- ===== src/Tests/Addresses.antt =====
-- The address 10.0.1.255, with the last element of its array first in the text.

use cppnet.Prelude.{◌∷◌, [], refl, arith, some, false, ◌≡◌}
use cppnet.Prelude.Memory.{done}
use cppnet.Addr.Ipv6.{of_parts}
use cppnet.Addr.IpAddr.{IpAddr, ipv6, parse_ip, ip_to_string}
use cppnet.Addr.IpAddr.Text.{parse_ip-ip_to_string}
use cppnet.Addr.Ipv4.{Ipv4Addr, of_number, to_number, is_private_network, compare_addr}
use cppnet.Addr.Ipv4.Private.{is_private_network-of_number}
use cppnet.Addr.Ipv4.Order.{compare_addr-to_number, number_order}

abbrev address : Ipv4Addr
address = record { b0 = 255; b1 = 1; b2 = 0; b3 = 10 }

abbrev other : Ipv4Addr
other = record { b0 = 255; b1 = 2; b2 = 0; b3 = 0 }

compare_addr-to_number_example :
    compare_addr address other ≡ number_order (to_number address) (to_number other)
compare_addr-to_number_example =
    compare_addr-to_number address other (omega arith, omega arith, omega arith, omega arith)
      (omega arith, omega arith, omega arith, omega arith)

-- 192.168.0.1 is not taken as private.
is_private_network-of_number_example : is_private_network (of_number 0xc0a80001) ≡ false
is_private_network-of_number_example = is_private_network-of_number 0xc0a80001 (omega arith)

abbrev v6 : IpAddr
v6 = ipv6 (of_parts (0x2001 ∷ 0xdb8 ∷ 0 ∷ 0 ∷ 0 ∷ 0 ∷ 0xff ∷ 1 ∷ []))

parse_ip-ip_to_string_example : parse_ip (ip_to_string v6) ≡ some (done (some v6))
parse_ip-ip_to_string_example =
    parse_ip-ip_to_string v6 (0x2001, 0xdb8, 0, 0, 0, 0, 0xff, 1, omega arith, refl)
