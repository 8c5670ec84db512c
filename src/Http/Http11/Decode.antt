-- ===== src/Http/Http11/Decode.antt =====
-- `request_decode` and `response_decode` of src/http/http11.cpp, over a source of lines.
pub mod RoundTrip
use cppnet.Prelude.{ℕ, Option, [], codes, if◌then◌else◌, length, none, some, ◌==◌}
use cppnet.Prelude.Memory.{Run, done, ◌>>?◌}
use cppnet.Io.Readline.{LineResult}
use cppnet.Url.Parser.{Url}
use cppnet.Http.Headers.{Headers, get_value, get_content_length, is_chunked}
use cppnet.Http.Http11.{Decoded, expected, unexpected, Request, Response}
use cppnet.Http.Http11.Line.{parse_request_line, parse_status_line}
use cppnet.Http.Http11.Fields.{parse_headers}

-- The reader that a body is read through: a `chunked_reader`, or a `limit_reader` with its limit.
pub data Body : Type 0 where
  chunked : Body
  limited : ℕ → Body

pub body_of : Headers → Body
body_of headers =
    if is_chunked headers
    then chunked
    else limited (elim (get_content_length headers) [ some n ↦ n | none ↦ 0 ])

-- A uri without a host takes that of the headers.
pub with_host : Headers → Url → Url
with_host headers uri =
    if length uri.host == 0
    then record uri { host = elim (get_value (codes "Host") headers) [ some h ↦ h | none ↦ [] ] }
    else uri

abbrev pub request_with_headers : Request → Headers → Request
request_with_headers req headers = record {
  method = req.method;
  version = req.version;
  uri = with_host headers req.uri;
  headers = headers;
}

module _ {S : Type 0} (next_line : S → Run (Option (LineResult × S))) (max_header_bytes : ℕ) where
  abbrev pub after_fields :
      Request → Decoded Headers × S → Run (Option (Decoded (Request × Body) × S))
  after_fields req (unexpected e, s) = done (some (unexpected e, s))
  after_fields req (expected headers, s) =
      done (some (expected (request_with_headers req headers, body_of headers), s))

  abbrev pub after_request_line : Decoded Request × S → Run (Option (Decoded (Request × Body) × S))
  after_request_line (unexpected e, s) = done (some (unexpected e, s))
  after_request_line (expected req, s) =
      parse_headers next_line max_header_bytes req.headers s >>? after_fields req

  pub request_decode : S → Run (Option (Decoded (Request × Body) × S))
  request_decode s = parse_request_line next_line s >>? after_request_line

  abbrev pub after_response_fields :
      Response → Decoded Headers × S → Run (Option (Decoded (Response × Body) × S))
  after_response_fields resp (unexpected e, s) = done (some (unexpected e, s))
  after_response_fields resp (expected headers, s) =
      done (some (expected (record resp { headers = headers }, body_of headers), s))

  abbrev pub after_status_line : Decoded Response × S → Run (Option (Decoded (Response × Body) × S))
  after_status_line (unexpected e, s) = done (some (unexpected e, s))
  after_status_line (expected resp, s) =
      parse_headers next_line max_header_bytes resp.headers s >>? after_response_fields resp

  pub response_decode : S → Run (Option (Decoded (Response × Body) × S))
  response_decode s = parse_status_line next_line s >>? after_status_line
