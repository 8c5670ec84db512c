-- ===== src/Http/Http11/Encode/Text.antt =====
-- The text of a request, as lines.

use cppnet.Prelude.{
  concat, ℕ, List, [], ap, append_assoc, ap₂, arith, codes, ltb, true, ◌%◌, ◌++◌, ◌+◌, ◌<◌, ◌∙◌,
  ◌∷◌, ◌≡◌, sym,
}
use cppnet.Prelude.Chars.{decimal_text}
use cppnet.Url.Build.{build}
use cppnet.Http.Router.Method.{method_string}
use cppnet.Http.Http11.{ProtocolVersion, Request}
use cppnet.Http.Http11.Fields.{header_pieces}
use cppnet.Http.Http11.Fields.Write.{concat-header_pieces}
use cppnet.Http.Http11.Fields.RoundTrip.{Field, headers_of, fields_text}
use cppnet.Http.Http11.Line.Text.{request_line, version_text}
use cppnet.Http.Http11.Encode.{request_pieces, version_buf, sent_version}

digit_text : (d : ℕ) → d < 10 → decimal_text 10 d ≡ (d + b'0') % 256 ∷ []
digit_text d h =
    let small : ltb d 10 ≡ true = ground arith in rw small (ap (λ c. c ∷ []) (omega arith))

version_text-buf :
    (v : ProtocolVersion)
    → v.major < 10
    → v.minor < 10
    → version_text v (b' ' ∷ []) ≡ codes "HTTP/" ++ version_buf v
version_text-buf v hj hn =
    ap₂ (λ s t. codes "HTTP/" ++ (s ++ (b'.' ∷ (t ++ (b' ' ∷ []))))) (digit_text v.major hj)
      (digit_text v.minor hn)

-- The texts of a request with a version of two digits, that is not 0.0, are its first line, a line
-- end, the lines of its fields and an empty line.
pub concat-request_pieces :
    (req : Request) (fields : List Field) (tail : List ℕ)
    → req.version.major < 10
    → req.version.minor < 10
    → sent_version req.version ≡ req.version
    → req.headers ≡ headers_of fields
    → concat (request_pieces req) ++ tail
      ≡ request_line req.method (build req.uri) req.version (b' ' ∷ [])
        ++ (13 ∷ 10 ∷ fields_text fields tail)
concat-request_pieces req fields tail hj hn hv hh =
    let name = method_string req.method in
    let uri = build req.uri in
    let rest = concat (header_pieces req.headers ++ (codes "\r\n" ∷ [])) in
    let lines = 13 ∷ 10 ∷ fields_text fields tail in
    let text = version_text req.version (b' ' ∷ []) in
    let version = codes " HTTP/" ++ version_buf (sent_version req.version) in
    append_assoc name (b' ' ∷ (uri ++ (version ++ (13 ∷ 10 ∷ rest)))) tail
    ∙ ap (λ t. name ++ (b' ' ∷ t)) (append_assoc uri (version ++ (13 ∷ 10 ∷ rest)) tail)
    ∙ ap
        (λ v.
          name
          ++ (b' ' ∷ (uri ++ (codes " HTTP/" ++ (version_buf v ++ (13 ∷ 10 ∷ (rest ++ tail)))))))
        hv
    ∙ ap
        (λ t.
          name ++ (b' ' ∷ (uri ++ (codes " HTTP/" ++ (version_buf req.version ++ (13 ∷ 10 ∷ t))))))
        (ap (λ h. concat (header_pieces h ++ (codes "\r\n" ∷ [])) ++ tail) hh
          ∙ concat-header_pieces fields tail)
    ∙ ap (λ t. name ++ (b' ' ∷ (uri ++ (b' ' ∷ (t ++ lines)))))
        (sym (version_text-buf req.version hj hn))
    ∙ ap (λ t. name ++ (b' ' ∷ t)) (sym (append_assoc uri (b' ' ∷ text) lines))
    ∙ sym (append_assoc name (b' ' ∷ (uri ++ (b' ' ∷ text))) lines)
