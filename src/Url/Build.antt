-- ===== src/Url/Build.antt =====
-- `url::build` of src/url.cpp.

use cppnet.Prelude.{Bool, List, [], codes, false, if◌then◌else◌, true, ℕ, ◌&&◌, ◌++◌, ◌∷◌}
use cppnet.Url.Parser.{Url}

-- The inner loop over the values of one key: the separator behind it, and what it writes.
build_values : List ℕ → ℕ → List (List ℕ) → ℕ × List ℕ
build_values key sep [] = (sep, [])
build_values key sep (val ∷ values) =
    let rest = build_values key b'&' values in (rest.0, sep ∷ (key ++ (b'=' ∷ (val ++ rest.1))))

build_query : ℕ → List (List ℕ × List (List ℕ)) → List ℕ
unfolding build_values
build_query sep [] = []
build_query sep (param ∷ params) =
    let first = build_values param.0 sep param.1 in first.1 ++ build_query first.0 params

abbrev is_empty : List ℕ → Bool
is_empty [] = true
is_empty (c ∷ cs) = false

unfoldable pub build : Url → List ℕ
unfolding build_query
build u =
    (if is_empty u.scheme then [] else u.scheme ++ codes "://")
    ++ ((if is_empty u.username && is_empty u.password
          then []
          else u.username ++ (b':' ∷ (u.password ++ (b'@' ∷ []))))
        ++ (u.host
            ++ ((if is_empty u.port then [] else b':' ∷ u.port)
                ++ (u.path
                    ++ (build_query b'?' u.query
                        ++ (if is_empty u.fragment then [] else b'#' ∷ u.fragment))))))
