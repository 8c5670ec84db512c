-- ===== src/Tests/Urls.antt =====
-- Percent encoding, and the parser on urls.

use cppnet.Prelude.{All, IsByte, List, arith, codes, none, refl, some, true, ℕ, ◌<◌, ◌==◌, ◌≡◌, ◌≤◌}
use cppnet.Prelude.Memory.{◌>>=◌, done}
use cppnet.Prelude.Strings.{misses_sound, one_of}
use cppnet.Url.Percent.{encode, decode}
use cppnet.Url.Percent.Spaced.{Spaced, no_more, one_more, decode-encode-Spaced}
use cppnet.Url.Percent.Ends.{Ends, decode-Ends}
use cppnet.Url.Parser.Loop.{ParseResult, parse}
use cppnet.Url.Parser.Result.{parse-result}
use cppnet.Url.Parser.Ends.{parse-Ends}

abbrev reserved : List ℕ
reserved = codes "!#$%&'()*+,/:;=?@[]"

bounds : (c : ℕ) → one_of reserved c ≡ true → (16 ≤ c) × (c < 128)
bounds c h = (ground (arith, h), ground (arith, h))

abbrev text : List ℕ
text = codes "a/bc%d"

text-Spaced : Spaced (one_of reserved) 0 text
text-Spaced =
    one_more (codes "a") b'/' (codes "bc%d") (omega arith) (refl, tt) refl
      (one_more (codes "bc") b'%' (codes "d") (omega arith) (refl, (refl, tt)) refl
        (no_more (codes "d") (refl, tt)))

text_bytes : All IsByte text
text_bytes =
    (omega arith, (omega arith, (omega arith, (omega arith, (omega arith, (omega arith, tt))))))

decode-encode-Spaced_example :
    (encode reserved text >>= λ o. elim o [ none ↦ done none | some t ↦ decode t ])
    ≡ done (some text)
decode-encode-Spaced_example = decode-encode-Spaced reserved text bounds refl text_bytes text-Spaced

decode-Ends_example : Ends (decode (codes "a%2"))
decode-Ends_example = decode-Ends (codes "a%2")

parse-Ends_example : Ends (parse (codes "http://a.b/c?x=1#f"))
parse-Ends_example = parse-Ends (codes "http://a.b/c?x=1#f")

parse-result_example : (r : ParseResult) × (parse (codes "//a@b/?x") ≡ done (some r))
parse-result_example =
    parse-result (codes "//a@b/?x") (misses_sound (λ c. c == b'%') (codes "//a@b/?x") refl)
