-- ===== src/Tests/Strings.antt =====
-- The string helpers on short strings.

use cppnet.Prelude.{All, List, [], arith, codes, refl, some, ℕ, ◌==◌, ◌∷◌, ◌≡◌}
use cppnet.Prelude.Strings.{Misses}
use cppnet.Util.StringUtil.{split_string, join}
use cppnet.Util.StringUtil.Split.{split_string-pieces}
use cppnet.Util.StringUtil.Join.{join-split_string, split_string-join}

-- Start behind the first slash.
split_string-pieces_example :
    split_string (codes "/a//b") b'/' 1 ≡ some (codes "a" ∷ [] ∷ codes "b" ∷ [])
split_string-pieces_example = split_string-pieces (codes "/a//b") b'/' 1 (omega arith)

join-split_string_example :
    (ps : List (List ℕ)) × (split_string (codes "a.b.") b'.' 0 ≡ some ps)
    × (join (b'.' ∷ []) ps ≡ codes "a.b.")
    × All (λ p. Misses (λ c. c == b'.') p) ps
join-split_string_example = join-split_string (codes "a.b.") b'.'

split_string-join_example :
    split_string (join (b',' ∷ []) (codes "a" ∷ [] ∷ codes "bc" ∷ [])) b',' 0
    ≡ some (codes "a" ∷ [] ∷ codes "bc" ∷ [])
split_string-join_example =
    split_string-join b',' (codes "a") ([] ∷ codes "bc" ∷ [])
      ((refl, tt), (tt, ((refl, (refl, tt)), tt)))
