-- ===== src/Encoding.antt =====
-- encoding/: text encodings of bytes.
pub mod Hex
pub mod Base64
