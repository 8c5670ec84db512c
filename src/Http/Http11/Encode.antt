-- ===== src/Http/Http11/Encode.antt =====
-- `request_encode` and `response_encode` of src/http/http11.cpp, over any writer.
pub mod Text
use cppnet.Prelude.{ℕ, List, Option, [], codes, if◌then◌else◌, ◌%◌, ◌&&◌, ◌++◌, ◌+◌, ◌==◌, ◌∷◌}
use cppnet.Io.{ErrorCondition, Writer}
use cppnet.Url.Build.{build}
use cppnet.Http.Router.Method.{method_string}
use cppnet.Http.Status.{status_text}
use cppnet.Http.Http11.{ProtocolVersion, Request, Response}
use cppnet.Http.Http11.Fields.{header_pieces, write_pieces}

-- `version_buf`, whose chars are the low bytes of the sums.
abbrev pub version_buf : ProtocolVersion → List ℕ
version_buf v = (v.major + b'0') % 256 ∷ b'.' ∷ (v.minor + b'0') % 256 ∷ b' ' ∷ []

-- A client sends 1.0 where no version is set.
abbrev pub sent_version : ProtocolVersion → ProtocolVersion
sent_version v = if v.major == 0 && v.minor == 0 then record { major = 1; minor = 0 } else v

-- What the encoders write, one after the other.
abbrev pub request_pieces : Request → List (List ℕ)
request_pieces req =
    method_string req.method
    ∷ codes " "
    ∷ build req.uri
    ∷ codes " HTTP/"
    ∷ version_buf (sent_version req.version)
    ∷ codes "\r\n"
    ∷ (header_pieces req.headers ++ (codes "\r\n" ∷ []))

abbrev pub response_pieces : Response → List (List ℕ)
response_pieces resp =
    codes "HTTP/"
    ∷ version_buf resp.version
    ∷ status_text resp.status_code
    ∷ codes "\r\n"
    ∷ (header_pieces resp.headers ++ (codes "\r\n" ∷ []))

module _ {S : Type 0} (wr : Writer S) where
  unfoldable pub request_encode : Request → S → Option ErrorCondition × S
  request_encode req s = write_pieces wr (request_pieces req) s

  pub response_encode : Response → S → Option ErrorCondition × S
  response_encode resp s = write_pieces wr (response_pieces resp) s
