-- ===== src/Http/Http11/Line.antt =====
-- The first line of a request and of a response, of src/http/http11.cpp.

pub mod Text
use cppnet.Prelude.{
  ℕ, List, Bool, Option, [], codes, drop, if◌then◌else◌, length, none, some, take, ◌+◌, ◌-◌, ◌==◌,
  ◌^◌,
}
use cppnet.Prelude.Memory.{◌>>?◌, Run, done}
use cppnet.Prelude.Chars.{Parsed, from_chars, number, refused}
use cppnet.Prelude.Strings.{same_string, position, find_from, starts_with}
use cppnet.Io.{system, status, closed}
use cppnet.Io.Readline.{LineResult, line, line_error}
use cppnet.Url.Parser.{Url, empty_url}
use cppnet.Url.Parser.Loop.{ParseResult, parse}
use cppnet.Http.Router.{unset, RequestMethod, parse_method}
use cppnet.Http.Status.{parse_status, no_status}
use cppnet.Http.Http11.{Decoded, expected, unexpected, ProtocolVersion, Request, Response, illegal}

-- The numbers on the two sides of the point at `split_idx`.
abbrev pub version_from : Parsed → Parsed → Decoded ProtocolVersion
version_from (refused e) minor = unexpected (system e)
version_from (number major) (refused e) = unexpected (system e)
version_from (number major) (number minor) = expected (record { major = major; minor = minor })

abbrev pub version_at : ℕ → List ℕ → Decoded ProtocolVersion
version_at split_idx str =
    version_from (from_chars (2 ^ 32) (take split_idx str))
      (from_chars (2 ^ 32) (drop (split_idx + 1) str))

pub parse_http_version : List ℕ → Decoded ProtocolVersion
parse_http_version str =
    if starts_with str (codes "HTTP/")
    then (elim (position (λ c. c == b'.') (drop 5 str)) [
      | none ↦ unexpected illegal
      | some split_idx ↦ version_at split_idx (drop 5 str)
    ])
    else unexpected illegal

abbrev pub is_blank : ℕ → Bool
is_blank c = c == b' '

-- What `parse_request_line` sets the uri to. `url::parse` may end the program.
unfoldable pub uri_of : List ℕ → Run (Option Url)
uri_of uri =
    if same_string uri (codes "*")
    then done (some (record empty_url { host = codes "*" }))
    else parse uri >>? λ r. done (
        some (elim r [
          | ParseResult.parsed u ↦ u
          | ParseResult.failed_at s i ↦ record empty_url { path = codes "/" }
        ]))

-- `parse_request_line` behind the read of its line.
abbrev pub request_of : RequestMethod → ProtocolVersion → Url → Request
request_of method version uri = record {
  method = method;
  version = version;
  uri = uri;
  headers = [];
}

abbrev pub request_from :
    RequestMethod → Run (Option Url) → Decoded ProtocolVersion → Run (Option (Decoded Request))
request_from method uri (unexpected e) = uri >>? λ u. done (some (unexpected e))
request_from method uri (expected version) =
    uri >>? λ u. done (some (expected (request_of method version u)))

abbrev pub request_at : RequestMethod → ℕ → ℕ → List ℕ → Run (Option (Decoded Request))
request_at method uri_start uri_end view =
    request_from method (uri_of (take (uri_end - uri_start) (drop uri_start view)))
      (parse_http_version (drop (uri_end + 1) view))

abbrev pub request_behind : RequestMethod → ℕ → List ℕ → Run (Option (Decoded Request))
request_behind method uri_start view = elim (find_from is_blank view uri_start) [
  | none ↦ done (some (unexpected illegal))
  | some uri_end ↦ request_at method uri_start uri_end view
]

abbrev pub request_with : RequestMethod → ℕ → List ℕ → Run (Option (Decoded Request))
request_with unset uri_start view = done (some (unexpected illegal))
request_with method uri_start view = request_behind method uri_start view

pub request_of_line : List ℕ → Run (Option (Decoded Request))
request_of_line view =
    if length view == 0
    then done (some (unexpected (status closed)))
    else (elim (position is_blank view) [
      | none ↦ done (some (unexpected illegal))
      | some method_end ↦ request_with (parse_method (take method_end view)) (method_end + 1) view
    ])

-- `parse_status_line` behind the read of its line. It takes as many chars as the index of the end of
-- the status says.
abbrev pub response_at : ProtocolVersion → ℕ → ℕ → List ℕ → Decoded Response
response_at version status_start status_end view =
    let code = parse_status (take status_end (drop status_start view)) in
    if code == no_status
    then unexpected illegal
    else expected (record { version = version; status_code = code; headers = [] })

pub response_of_line : List ℕ → Decoded Response
response_of_line view =
    if length view == 0 then unexpected (status closed) else (elim (position is_blank view) [
      | none ↦ unexpected illegal
      | some version_end ↦ elim (parse_http_version (take version_end view)) [
        | unexpected e ↦ unexpected e
        | expected version ↦ elim (find_from is_blank view (version_end + 1)) [
          | none ↦ unexpected illegal
          | some status_end ↦ response_at version (version_end + 1) status_end view
        ]
      ]
    ])

module _ {S : Type 0} (next_line : S → Run (Option (LineResult × S))) where
  pub parse_request_line : S → Run (Option (Decoded Request × S))
  unfolding request_of_line
  parse_request_line s = next_line s >>? λ r. elim r.0 [
    | line_error e ↦ done (some (unexpected e, r.1))
    | line text ↦ request_of_line text >>? λ q. done (some (q, r.1))
  ]

  pub parse_status_line : S → Run (Option (Decoded Response × S))
  unfolding response_of_line
  parse_status_line s = next_line s >>? λ r. elim r.0 [
    | line_error e ↦ done (some (unexpected e, r.1))
    | line text ↦ done (some (response_of_line text, r.1))
  ]
