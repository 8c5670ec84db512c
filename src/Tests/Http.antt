-- ===== src/Tests/Http.antt =====
-- The lines, headers, statuses and messages of http.

use cppnet.Prelude.{
  concat, ℕ, List, codes, arith, [], drop, none, refl, some, ◌∷◌, ◌≡◌, Option, false, ◌++◌, ◌+◌,
}
use cppnet.Prelude.Memory.{Run, done}
use cppnet.Io.{Reader}
use cppnet.Io.BufferedReader.{BufferedReader}
use cppnet.Io.Sources.{StringReader, string_read}
use cppnet.Io.BufferedReader.Deliver.{IsValid, whole}
use cppnet.Io.Sources.Deliver.{
  string_read-IsSource, string_read-Feeds, StringReaderIsValid, string_content,
}
use cppnet.Io.Readline.{readline, line, LineResult}
use cppnet.Io.Readline.Lines.{readline-line, readline-IsLines, is_newline}
use cppnet.Util.StringUtil.{equal_ignore_case}
use cppnet.Url.Percent.{decode}
use cppnet.Prelude.Strings.{misses_sound}
use cppnet.Io.Readline.Lines.{is_newline, readline-line, readline-IsLines}
use cppnet.Http.Http11.Fields.RoundTrip.{IsPlain, is_colon, is_comma, Field, headers_of}
use cppnet.Url.Parser.{empty_url}
use cppnet.Url.Parser.Loop.{parse}
use cppnet.Url.Build.{build}
use cppnet.Http.Status.{parse_status, status_text}
use cppnet.Http.Status.Text.{parse_status-status_text}
use cppnet.Http.Router.{get}
use cppnet.Http.Router.Method.{method_string}
use cppnet.Http.Headers.{Headers, get_all, add_value, get_content_length, set_content_length}
use cppnet.Http.Headers.Map.{get_all-add_value}
use cppnet.Http.Headers.Length.{get_content_length-set_content_length}
use cppnet.Http.Http11.{expected, Request}
use cppnet.Http.Http11.Line.{uri_of, request_of}
use cppnet.Http.Http11.Fields.RoundTrip.{Field, headers_of, is_colon, is_comma, IsPlain}
use cppnet.Http.Http11.Encode.{request_pieces}
use cppnet.Http.Http11.Decode.{request_decode, request_with_headers, body_of}
use cppnet.Http.Http11.Decode.RoundTrip.{request_decode-request_pieces}

abbrev strings : Reader StringReader
strings = record { read_some = string_read }

abbrev moving : List ℕ → ℕ → Run (List ℕ)
moving buf n = done (drop n buf)

abbrev lines : BufferedReader StringReader
lines = record {
  impl = record { view = codes "first\r\nsecond\r\n"; idx = 0 };
  buf = [];
  capacity = 4;
  err = none;
}

readline-line_example :
    (s' : BufferedReader StringReader) × IsValid strings StringReaderIsValid string_content s'
    × (whole strings StringReaderIsValid string_content s' ≡ codes "second\r\n")
    × (readline strings moving (13 ∷ 10 ∷ []) 9 lines ≡ done (some (line (codes "first"), s')))
readline-line_example =
    readline-line strings StringReaderIsValid string_content string_read-IsSource moving 9
      (codes "first") (codes "second\r\n") lines (λ buf k. refl) string_read-Feeds
      (omega arith, omega arith, omega arith) (refl, (refl, (refl, (refl, (refl, tt)))))
      (omega arith) refl

parse_status-status_text_example : parse_status (status_text 404) ≡ 404
parse_status-status_text_example = parse_status-status_text 404

abbrev host_field : Headers
host_field = (codes "Host", codes "a.b" ∷ []) ∷ []

get_all-add_value_example :
    get_all (codes "HOST") (add_value (codes "host") (codes "c.d") host_field)
    ≡ some (codes "a.b" ∷ codes "c.d" ∷ [])
unfolding get_all equal_ignore_case
get_all-add_value_example = get_all-add_value (codes "host") (codes "HOST") (codes "c.d") host_field

get_content_length-set_content_length_example :
    (get_content_length (set_content_length 120 host_field) ≡ some 120)
    × ((key : List ℕ)
        → equal_ignore_case key (codes "Content-Length") ≡ false
        → get_all key (set_content_length 120 host_field) ≡ get_all key host_field)
get_content_length-set_content_length_example =
    get_content_length-set_content_length 120 host_field (omega arith)

abbrev fields : List Field
fields = (codes "Host", codes "a.b") ∷ (codes "Accept", codes "text/html") ∷ []

host_IsPlain : IsPlain (codes "Host", codes "a.b")
host_IsPlain = (
  (b'H', codes "ost", codes "Hos", b't', refl, refl, refl, refl, omega arith),
  (b'a', codes ".b", codes "a.", b'b', refl, refl, refl, refl, omega arith),
  misses_sound is_colon (codes "Host") refl,
  misses_sound is_comma (codes "a.b") refl,
  misses_sound is_newline (codes "Host") refl,
  misses_sound is_newline (codes "a.b") refl,
)

accept_IsPlain : IsPlain (codes "Accept", codes "text/html")
accept_IsPlain = (
  (b'A', codes "ccept", codes "Accep", b't', refl, refl, refl, refl, omega arith),
  (b't', codes "ext/html", codes "text/htm", b'l', refl, refl, refl, refl, omega arith),
  misses_sound is_colon (codes "Accept") refl,
  misses_sound is_comma (codes "text/html") refl,
  misses_sound is_newline (codes "Accept") refl,
  misses_sound is_newline (codes "text/html") refl,
)

abbrev request : Request
request = record {
  method = get;
  version = record { major = 1; minor = 1 };
  uri = record empty_url { path = codes "/x" };
  headers = headers_of fields;
}

abbrev message : BufferedReader StringReader
message = record {
  impl = record { view = concat (request_pieces request) ++ codes "body"; idx = 0 };
  buf = [];
  capacity = 16;
  err = none;
}

abbrev next_line :
    BufferedReader StringReader → Run (Option (LineResult × BufferedReader StringReader))
next_line = readline strings moving (13 ∷ 10 ∷ []) (40 + 2)

request_decode-request_pieces_example :
    (s' : BufferedReader StringReader) × (whole strings StringReaderIsValid string_content s'
      ≡ codes "body")
    × (request_decode next_line 100 message
        ≡ done (
            some (
              expected (
                request_with_headers
                    (request_of get
                      (record { major = 1; minor = 1 })
                      (record empty_url { path = codes "/x" }))
                    (headers_of fields),
                body_of (headers_of fields),
              ),
              s',
            )))
unfolding uri_of build parse decode equal_ignore_case method_string
request_decode-request_pieces_example =
    request_decode-request_pieces next_line 100 (IsValid strings StringReaderIsValid string_content)
      (whole strings StringReaderIsValid string_content) 40
      (readline-IsLines strings StringReaderIsValid string_content string_read-IsSource moving 40
        (λ buf k. refl) string_read-Feeds)
      request fields (record empty_url { path = codes "/x" }) (codes "body") message
      (
        λ e. absurd (cc (e)),
        omega arith,
        omega arith,
        refl,
        (refl, (refl, tt)),
        (refl, (refl, tt)),
        refl,
        (host_IsPlain, (accept_IsPlain, tt)),
        (tt, ((refl, tt), tt)),
      )
      refl (omega arith) (omega arith) (omega arith) (omega arith, omega arith, omega arith) refl
