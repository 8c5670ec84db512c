-- ===== src/Http/Router/Method.antt =====
-- The names of the methods in include/http/request.hpp.

use cppnet.Prelude.{List, [], ap, ap₂, arith, codes, map, refl, ℕ, ◌&&◌, ◌==◌, ◌∷◌, ◌≡◌, sym, ◌∙◌}
use cppnet.Util.StringUtil.{equal_ignore_case, to_lower}
use cppnet.Http.Router.{
  RequestMethod, connect, delete, get, head, options, patch, post, put, trace, unset, parse_method,
}

unfoldable pub method_string : RequestMethod → List ℕ
method_string connect = codes "CONNECT"
method_string delete = codes "DELETE"
method_string get = codes "GET"
method_string head = codes "HEAD"
method_string options = codes "OPTIONS"
method_string patch = codes "PATCH"
method_string post = codes "POST"
method_string put = codes "PUT"
method_string trace = codes "TRACE"
method_string unset = codes "NONE"

to_lower-to_lower : (c : ℕ) → to_lower (to_lower c) ≡ to_lower c
to_lower-to_lower c = ground arith

equal_ignore_case-lower :
    (s t : List ℕ) → equal_ignore_case (map to_lower s) t ≡ equal_ignore_case s t
unfolding equal_ignore_case
equal_ignore_case-lower [] [] = refl
equal_ignore_case-lower [] (y ∷ t) = refl
equal_ignore_case-lower (x ∷ s) [] = refl
equal_ignore_case-lower (x ∷ s) (y ∷ t) =
    ap₂ (λ a b. a && b) (ap (λ c. c == to_lower y) (to_lower-to_lower x))
      (equal_ignore_case-lower s t)

parse_method-lower : (s : List ℕ) → parse_method (map to_lower s) ≡ parse_method s
unfolding parse_method
parse_method-lower s =
    rw
      (
        equal_ignore_case-lower s (codes "CONNECT"),
        equal_ignore_case-lower s (codes "DELETE"),
        equal_ignore_case-lower s (codes "GET"),
        equal_ignore_case-lower s (codes "HEAD"),
        equal_ignore_case-lower s (codes "OPTIONS"),
        equal_ignore_case-lower s (codes "PATCH"),
        equal_ignore_case-lower s (codes "POST"),
        equal_ignore_case-lower s (codes "PUT"),
        equal_ignore_case-lower s (codes "TRACE"),
      )
      refl

parse_method-name : (m : RequestMethod) → parse_method (method_string m) ≡ m
unfolding parse_method method_string equal_ignore_case
parse_method-name connect = refl
parse_method-name delete = refl
parse_method-name get = refl
parse_method-name head = refl
parse_method-name options = refl
parse_method-name patch = refl
parse_method-name post = refl
parse_method-name put = refl
parse_method-name trace = refl
parse_method-name unset = refl

-- A text that is the name of a method up to the case of its letters: `parse_method` gives that
-- method.
pub parse_method-method_string :
    (str : List ℕ) (m : RequestMethod)
    → map to_lower str ≡ map to_lower (method_string m)
    → parse_method str ≡ m
parse_method-method_string str m h =
    sym (parse_method-lower str)
    ∙ ap parse_method h
    ∙ parse_method-lower (method_string m)
    ∙ parse_method-name m
