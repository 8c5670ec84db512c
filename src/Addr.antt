-- ===== src/Addr.antt =====
-- src/ipv4_addr.cpp, src/ipv6_addr.cpp and src/ip_addr.cpp: internet addresses.
pub mod Ipv4
pub mod Ipv6
pub mod IpAddr
