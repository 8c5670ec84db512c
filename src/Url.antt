-- ===== src/Url.antt =====
-- src/url.cpp and include/url.hpp.
pub mod Percent
pub mod Parser
pub mod Build
