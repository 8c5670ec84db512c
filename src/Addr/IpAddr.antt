-- ===== src/Addr/IpAddr.antt =====
-- src/ip_addr.cpp and include/ip_addr.hpp: an address of one of the two kinds.
pub mod Text
use cppnet.Prelude.{ℕ, List, Bool, Option, none, some, true, false, ◌==◌, ◌∷◌, if◌then◌else◌, ltb}
use cppnet.Prelude.Memory.{Run, done, ◌>>=◌, fault}
use cppnet.Prelude.Strings.{position}
use cppnet.Addr.Ipv4.{
  Ipv4Addr, parse, to_string, AddrOrder, less, greater, equivalent, compare_addr,
}
use cppnet.Addr.Ipv6.{Ipv6Addr, parse_ipv6, ipv6_to_string}

-- The class `ip_addr`, with its variant.
pub data IpAddr : Type 0 where
  ipv4 : Ipv4Addr → IpAddr
  ipv6 : Ipv6Addr → IpAddr

pub is_ipv4 : IpAddr → Bool
is_ipv4 (ipv4 a) = true
is_ipv4 (ipv6 a) = false

pub is_ipv6 : IpAddr → Bool
is_ipv6 (ipv4 a) = false
is_ipv6 (ipv6 a) = true

-- Not `npos`.
abbrev pub is_found : Option ℕ → Bool
is_found none = false
is_found (some i) = true

abbrev pub has_char : ℕ → List ℕ → Bool
has_char c str = is_found (position (λ x. x == c) str)

abbrev pub as_ipv4 : Run (Option Ipv4Addr) → Run (Option IpAddr)
as_ipv4 r = r >>= λ o. done (elim o [ none ↦ none | some a ↦ some (ipv4 a) ])

-- The second half of `parse`. `none` outside is a split that has not ended.
pub parse_as_ipv4 : List ℕ → Option (Run (Option IpAddr))
parse_as_ipv4 str =
    if has_char b'.' str
    then elim (parse str) [ none ↦ none | some r ↦ some (as_ipv4 r) ]
    else some (done none)

-- What `parse` does with an address, or without one.
abbrev pub after_ipv6 :
    Option (Run (Option IpAddr)) → Run (Option Ipv6Addr) → Option (Run (Option IpAddr))
after_ipv6 rest fault = some fault
after_ipv6 rest (done none) = rest
after_ipv6 rest (done (some a)) = some (done (some (ipv6 a)))

-- `ip_addr::parse`
pub parse_ip : List ℕ → Option (Run (Option IpAddr))
unfolding parse_as_ipv4
parse_ip str =
    if has_char b':' str
    then elim (parse_ipv6 str) [ none ↦ none | some r ↦ after_ipv6 (parse_as_ipv4 str) r ]
    else parse_as_ipv4 str

pub ip_to_string : IpAddr → List ℕ
ip_to_string (ipv4 a) = to_string a
ip_to_string (ipv6 a) = ipv6_to_string a

-- `operator<=>` of bytes one after the other.
compare_ipv6 : Ipv6Addr → Ipv6Addr → AddrOrder
compare_ipv6 (x ∷ xs) (y ∷ ys) =
    if ltb x y then less else if ltb y x then greater else compare_ipv6 xs ys
compare_ipv6 xs ys = equivalent

-- `operator<=>`: none if the kinds differ.
pub compare_ip : IpAddr → IpAddr → Option AddrOrder
unfolding compare_ipv6
compare_ip (ipv4 a) (ipv4 b) = some (compare_addr a b)
compare_ip (ipv6 a) (ipv6 b) = some (compare_ipv6 a b)
compare_ip a b = none
