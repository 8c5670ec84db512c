-- ===== src/Http.antt =====
-- src/http: the router and the chunked coding.
pub mod Status
pub mod Http11
pub mod Headers
pub mod Router
pub mod ChunkedWriter
pub mod ChunkedReader
