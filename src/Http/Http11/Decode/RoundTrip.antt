-- ===== src/Http/Http11/Decode/RoundTrip.antt =====
-- A request, expected from the texts that a client writes for it.

use cppnet.Prelude.{
  concat, ℕ, List, All, Option, [], length, some, ◌++◌, ◌<◌, ◌∷◌, ◌≡◌, ◌≢◌, ◌≤◌, ap, arith, refl,
  sym, ◌∙◌,
}
use cppnet.Prelude.Memory.{Run, done, ◌>>?◌}
use cppnet.Prelude.Strings.{Misses}
use cppnet.Io.Readline.{LineResult, IsLines}
use cppnet.Io.Readline.Lines.{is_newline}
use cppnet.Url.Parser.{Url}
use cppnet.Url.Build.{build}
use cppnet.Http.Router.{unset}
use cppnet.Http.Http11.{expected, Request}
use cppnet.Http.Http11.Line.{uri_of, is_blank, request_of, parse_request_line}
use cppnet.Http.Http11.Line.Text.{
  request_line, request_of_line-request_line, request_line-Misses, parse_request_line-line,
}
use cppnet.Http.Http11.Fields.RoundTrip.{
  parse_headers-fields, Field, field_line, headers_of, fields_size, IsPlain, AreNew, fields_text,
}
use cppnet.Http.Http11.Encode.Text.{concat-request_pieces}
use cppnet.Http.Http11.Encode.{request_pieces, sent_version}
use cppnet.Http.Http11.Decode.{
  body_of, request_with_headers, request_decode, after_fields, after_request_line,
}

-- A request whose texts are lines: with a method, a version of two digits, a uri without blanks and
-- newlines, and trimmed fields with one value each and different keys.
abbrev pub IsSendable : Request → List Field → Type 0
IsSendable req fields =
    (req.method ≢ unset)
    × (req.version.major < 10)
    × (req.version.minor < 10)
    × (sent_version req.version ≡ req.version)
    × Misses is_blank (build req.uri)
    × Misses is_newline (build req.uri)
    × (req.headers ≡ headers_of fields)
    × All IsPlain fields
    × AreNew [] fields

module _ {S : Type 0} (next_line : S → Run (Option (LineResult × S))) (max_header_bytes : ℕ)
    (Valid : S → Type 0) (content : S → List ℕ) (limit : ℕ)
    (lines : IsLines next_line Valid content limit) where
  abbrev first_line : Request → List ℕ
  first_line req = request_line req.method (build req.uri) req.version (b' ' ∷ [])

  parse_request_line-first_line :
      (req : Request) (fields : List Field) (uri : Url) (tail : List ℕ) (s : S)
      → IsSendable req fields
      → uri_of (build req.uri) ≡ done (some uri)
      → length (first_line req) ≤ limit
      → Valid s
      → content s ≡ first_line req ++ (13 ∷ 10 ∷ tail)
      → (s' : S) × Valid s'
        × (content s' ≡ tail)
        × (parse_request_line next_line s
            ≡ done (some (expected (request_of req.method req.version uri), s')))
  parse_request_line-first_line req fields uri tail s ok parsed hl valid e =
      let one =
        lines (first_line req) tail s valid
          (request_line-Misses req.method (build req.uri) req.version ok.5) hl e in
      (
        one.0,
        one.1,
        one.2,
        parse_request_line-line next_line s one.0 (first_line req) one.3
            ∙ ap (λ m. m >>? λ q. done (some (q, one.0)))
                (request_of_line-request_line req.method (build req.uri) req.version (b' ' ∷ [])
                    ok.0 ok.4 (omega (arith, ok.1)) (omega (arith, ok.2)) refl
                  ∙ ap
                      (λ u. u >>? λ v. done (some (expected (request_of req.method req.version v))))
                      parsed),
      )

  -- Over a source of lines up to a limit: the texts that request_encode writes for a request with a
  -- method, a version of two digits that is not replaced, a uri without blanks and newlines that
  -- is parsed, and trimmed fields with one value each and different keys, with a body behind them,
  -- its lines within the limit and those of its fields shorter than max_header_bytes together.
  -- request_decode returns the method, the version, the parsed uri with the host of the headers
  -- where it has none, and the headers, with the reader that the headers ask for, and leaves the
  -- body.
  pub request_decode-request_pieces :
      (req : Request) (fields : List Field) (uri : Url) (body : List ℕ) (s : S)
      → IsSendable req fields
      → uri_of (build req.uri) ≡ done (some uri)
      → length (first_line req) ≤ limit
      → All (λ f. length (field_line f) ≤ limit) fields
      → fields_size fields < max_header_bytes
      → Valid s
      → content s ≡ concat (request_pieces req) ++ body
      → (s' : S) × (content s' ≡ body)
        × (request_decode next_line max_header_bytes s
            ≡ done (
                some (
                  expected (
                    request_with_headers (request_of req.method req.version uri) req.headers,
                    body_of req.headers,
                  ),
                  s',
                )))
  unfolding request_decode
  request_decode-request_pieces req fields uri body s ok parsed hl hf hm valid e =
      let first =
        parse_request_line-first_line req fields uri (fields_text fields body) s ok parsed hl valid
          (e ∙ concat-request_pieces req fields body ok.1 ok.2 ok.3 ok.6) in
      let rest =
        parse_headers-fields next_line max_header_bytes Valid content limit lines fields body
          first.0 ok.7 ok.8 hf hm first.1 first.2 in
      let req' = request_of req.method req.version uri in
      (
        rest.0,
        rest.2,
        ap (λ m. m >>? after_request_line next_line max_header_bytes) first.3
            ∙ ap (λ m. m >>? after_fields next_line max_header_bytes req') rest.3
            ∙ ap (λ h. done (some (expected (request_with_headers req' h, body_of h), rest.0)))
                (sym ok.6),
      )
