-- ===== src/Http/Http11/Line/Text.antt =====
-- The lines that a client and a server write, parsed.

use cppnet.Prelude.Memory.{◌>>?◌, done, Run}
use cppnet.Prelude.{
  ℕ, List, Bool, [], ap, append-nil, arith, codes, drop, length, refl, some, sym, take-append, true,
  ◌++◌, ◌+◌, ◌<◌, ◌==◌, ◌^◌, ◌∙◌, ◌∷◌, ◌≡◌, drop-append_cons, length-append, take, ◌≢◌, Option,
  append_assoc, none, ap₂, positive-nonzero, ◌-◌, All-append, false,
}
use cppnet.Prelude.Chars.{
  from_chars, decimal_text, from_chars-decimal_text, NoDigit, decimal_text-Misses, number,
}
use cppnet.Prelude.Strings.{
  position-some, position, starts_with, starts_with-append, Misses, misses, misses_sound, find_from,
  find_from-some,
}
use cppnet.Io.Readline.{LineResult, line}
use cppnet.Io.Readline.Lines.{is_newline}
use cppnet.Http.Router.{
  RequestMethod, connect, delete, get, head, options, patch, post, put, trace, unset, parse_method,
}
use cppnet.Http.Router.Method.{method_string, parse_method-method_string}
use cppnet.Http.Http11.{expected, ProtocolVersion, Decoded, unexpected, Request, illegal}
use cppnet.Http.Http11.Line.{
  parse_http_version, is_blank, uri_of, request_of, request_of_line, version_at, request_at,
  request_behind, request_with, version_from, request_from, parse_request_line,
}

-- A version as text, with what stands behind it.
abbrev pub version_text : ProtocolVersion → List ℕ → List ℕ
version_text v tail =
    codes "HTTP/" ++ (decimal_text 10 v.major ++ (b'.' ∷ (decimal_text 10 v.minor ++ tail)))

from_chars_whole : (v : ℕ) → v < 2 ^ 32 → from_chars (2 ^ 32) (decimal_text 10 v) ≡ number v
from_chars_whole v h =
    ap (from_chars (2 ^ 32)) (sym (append-nil (decimal_text 10 v)))
    ∙ from_chars-decimal_text (2 ^ 32) 10 v [] h (omega arith) (omega arith) tt

version_at-numbers :
    (split_idx : ℕ) (str : List ℕ) (major minor : ℕ)
    → from_chars (2 ^ 32) (take split_idx str) ≡ number major
    → from_chars (2 ^ 32) (drop (split_idx + 1) str) ≡ number minor
    → version_at split_idx str ≡ expected (record { major = major; minor = minor })
version_at-numbers split_idx str major minor hj hn = ap₂ version_from hj hn

-- The version is read back from its text, up to a char that is no digit.
pub parse_http_version-text :
    (v : ProtocolVersion) (tail : List ℕ)
    → v.major < 2 ^ 32
    → v.minor < 2 ^ 32
    → NoDigit tail
    → parse_http_version (version_text v tail) ≡ expected v
unfolding parse_http_version
parse_http_version-text v tail hj hn ht =
    let point : ℕ → Bool = λ c. c == b'.' in
    let major = decimal_text 10 v.major in
    let minor = decimal_text 10 v.minor ++ tail in
    let rest = major ++ (b'.' ∷ minor) in
    let starts : starts_with (codes "HTTP/" ++ rest) (codes "HTTP/") ≡ true =
      starts_with-append (codes "HTTP/") rest in
    let split : position point rest ≡ some (length major) =
      position-some point major b'.' minor
        (decimal_text-Misses point 10 v.major (λ c h. ground arith)) refl in
    let cut : drop (length major + 1) rest ≡ minor =
      drop-append_cons major b'.' minor (length major + 1) refl in
    rw (starts, split)
      (version_at-numbers (length major) rest v.major v.minor
        (ap (from_chars (2 ^ 32)) (take-append major (b'.' ∷ minor) (length major) refl)
          ∙ from_chars_whole v.major hj)
        (ap (from_chars (2 ^ 32)) cut
          ∙ from_chars-decimal_text (2 ^ 32) 10 v.minor tail hn (omega arith) (omega arith) ht))

-- The line of a request with a method, the text of a uri, and a version.
abbrev pub request_line : RequestMethod → List ℕ → ProtocolVersion → List ℕ → List ℕ
request_line method uri v tail =
    method_string method ++ (b' ' ∷ (uri ++ (b' ' ∷ version_text v tail)))

method_string-Misses : (method : RequestMethod) → Misses is_blank (method_string method)
unfolding method_string
method_string-Misses method = misses_sound is_blank (method_string method) (no_blank method)
  where
    no_blank : (m : RequestMethod) → misses is_blank (method_string m) ≡ true
    no_blank connect = refl
    no_blank delete = refl
    no_blank get = refl
    no_blank head = refl
    no_blank options = refl
    no_blank patch = refl
    no_blank post = refl
    no_blank put = refl
    no_blank trace = refl
    no_blank unset = refl

request_with-known :
    (method : RequestMethod) (uri_start : ℕ) (view : List ℕ)
    → method ≢ unset
    → request_with method uri_start view ≡ request_behind method uri_start view
request_with-known connect uri_start view known = refl
request_with-known delete uri_start view known = refl
request_with-known get uri_start view known = refl
request_with-known head uri_start view known = refl
request_with-known options uri_start view known = refl
request_with-known patch uri_start view known = refl
request_with-known post uri_start view known = refl
request_with-known put uri_start view known = refl
request_with-known trace uri_start view known = refl
request_with-known unset uri_start view known = absurd (known refl)

-- A method, a uri without blanks and a version are read back from the line of their texts.
pub request_of_line-request_line :
    (method : RequestMethod) (uri : List ℕ) (v : ProtocolVersion) (tail : List ℕ)
    → method ≢ unset
    → Misses is_blank uri
    → v.major < 2 ^ 32
    → v.minor < 2 ^ 32
    → NoDigit tail
    → request_of_line (request_line method uri v tail)
      ≡ (uri_of uri >>? λ u. done (some (expected (request_of method v u))))
unfolding request_of_line
request_of_line-request_line method uri v tail known blanks hj hn ht =
    let name = method_string method in
    let behind = version_text v tail in
    let view = request_line method uri v tail in
    let size = length-append name (b' ' ∷ (uri ++ (b' ' ∷ behind))) in
    let some_chars = positive-nonzero (length view) (omega (arith, size)) in
    let method_end : position is_blank view ≡ some (length name) =
      position-some is_blank name b' ' (uri ++ (b' ' ∷ behind)) (method_string-Misses method)
        refl in
    let parsed : parse_method (take (length name) view) ≡ method =
      ap parse_method (take-append name (b' ' ∷ (uri ++ (b' ' ∷ behind))) (length name) refl)
      ∙ parse_method-method_string name method refl in
    let uri_end : find_from is_blank view (length name + 1) ≡ some (length name + 1 + length uri) =
      ap (λ t. find_from is_blank t (length name + 1))
        (sym (append_assoc name (b' ' ∷ []) (uri ++ (b' ' ∷ behind))))
      ∙ find_from-some is_blank (name ++ (b' ' ∷ [])) uri b' ' behind (length name + 1)
          (omega (arith, length-append name (b' ' ∷ []))) blanks refl in
    let uri_here : take (length name + 1 + length uri - (length name + 1))
          (drop (length name + 1) view)
        ≡ uri =
      ap (take (length name + 1 + length uri - (length name + 1)))
        (drop-append_cons name b' ' (uri ++ (b' ' ∷ behind)) (length name + 1) refl)
      ∙ take-append uri (b' ' ∷ behind) (length name + 1 + length uri - (length name + 1))
          (omega arith) in
    let version_here : parse_http_version (drop (length name + 1 + length uri + 1) view)
        ≡ expected v =
      ap (λ t. parse_http_version (drop (length name + 1 + length uri + 1) t))
        (sym (append_assoc name (b' ' ∷ uri) (b' ' ∷ behind)))
      ∙ ap parse_http_version (
          drop-append_cons (name ++ (b' ' ∷ uri)) b' ' behind (length name + 1 + length uri + 1)
            (omega (arith, length-append name (b' ' ∷ uri))))
      ∙ parse_http_version-text v tail hj hn ht in
    rw (some_chars, method_end, parsed)
      (request_with-known method (length name + 1) view known
        ∙ ap
            (λ o. elim o as (λ x. Run (Option (Decoded Request))) [
              | none ↦ done (some (unexpected illegal))
              | some e ↦ request_at method (length name + 1) e view
            ])
            uri_end
        ∙ ap₂ (request_from method) (ap uri_of uri_here) version_here)

-- The line of a request has no newline.
pub request_line-Misses :
    (method : RequestMethod) (uri : List ℕ) (v : ProtocolVersion)
    → Misses is_newline uri
    → Misses is_newline (request_line method uri v (b' ' ∷ []))
unfolding method_string
request_line-Misses method uri v h =
    let digits = λ (k : ℕ). decimal_text-Misses is_newline 10 k (λ c hc. ground arith) in
    let join = All-append (λ c. is_newline c ≡ false) in
    join (method_string method) (b' ' ∷ (uri ++ (b' ' ∷ version_text v (b' ' ∷ []))))
      (misses_sound is_newline (method_string method) (no_newline method))
      (
        refl,
        join uri (b' ' ∷ version_text v (b' ' ∷ [])) h (
          refl,
          (
            refl,
            (
              refl,
              (
                refl,
                (
                  refl,
                  (
                    refl,
                    join (decimal_text 10 v.major) (b'.' ∷ (decimal_text 10 v.minor ++ (b' ' ∷ [])))
                        (digits v.major)
                        (
                          refl,
                          join (decimal_text 10 v.minor) (b' ' ∷ []) (digits v.minor) (refl, tt),
                        ),
                  ),
                ),
              ),
            ),
          ),
        ),
      )
  where
    no_newline : (m : RequestMethod) → misses is_newline (method_string m) ≡ true
    no_newline connect = refl
    no_newline delete = refl
    no_newline get = refl
    no_newline head = refl
    no_newline options = refl
    no_newline patch = refl
    no_newline post = refl
    no_newline put = refl
    no_newline trace = refl
    no_newline unset = refl

-- parse_request_line on a line that the source hands out.
pub parse_request_line-line :
    {S : Type 0} (next_line : S → Run (Option (LineResult × S))) (s s' : S) (text : List ℕ)
    → next_line s ≡ done (some (line text, s'))
    → parse_request_line next_line s ≡ (request_of_line text >>? λ q. done (some (q, s')))
unfolding parse_request_line
parse_request_line-line next_line s s' text e = rw (parse_request_line, e) refl
