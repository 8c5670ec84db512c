-- ===== src/Http/Http11.antt =====
-- src/http/http11.cpp: the lines, the header fields, and the two encoders and decoders. The types of
-- include/http/http.hpp and request.hpp, without their bodies.
pub mod Line
pub mod Fields
pub mod Encode
pub mod Decode
use cppnet.Prelude.{ℕ}
use cppnet.Io.{ErrorCondition, system}
use cppnet.Url.Parser.{Url}
use cppnet.Http.Router.{RequestMethod}
use cppnet.Http.Headers.{Headers}
use cppnet.Http.Status.{Status}

-- A `std::expected` of a value or an error.
pub data Decoded {ℓ} (A : Type ℓ) : Type ℓ where
  expected : A → Decoded A
  unexpected : ErrorCondition → Decoded A

pub record ProtocolVersion : Type 0 where
  pub major : ℕ
  pub minor : ℕ

pub record Request : Type 0 where
  pub method : RequestMethod
  pub version : ProtocolVersion
  pub uri : Url
  pub headers : Headers

pub record Response : Type 0 where
  pub version : ProtocolVersion
  pub status_code : Status
  pub headers : Headers

-- `std::make_error_condition(std::errc::illegal_byte_sequence)`
abbrev pub illegal : ErrorCondition
illegal = system 84
