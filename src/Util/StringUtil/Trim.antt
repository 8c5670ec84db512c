-- ===== src/Util/StringUtil/Trim.antt =====
-- `trim_string` against the characters around it, and where it does nothing.

use cppnet.Prelude.{
  Bool, List, [], length, none, not, refl, some, true, ℕ, ◌++◌, ◌<◌, ◌^◌, ◌∷◌, ◌≡◌, ap,
  append_assoc, arith, drop, drop-append, length-append, take, take-append, take_long, ◌%◌, ◌+◌,
  ◌-◌, ◌∙◌, ◌≤◌,
}
use cppnet.Prelude.Strings.{Misses, position, position-none, position-some}
use cppnet.Util.StringUtil.{trim_string, is_space, last_position}

-- The test of the search, negated: it finds no char of a blank string.
abbrev pub not_space : ℕ → Bool
not_space c = not (is_space c)

abbrev pub Blank : List ℕ → Type 0
Blank cs = Misses not_space cs

last_position-none : (test : ℕ → Bool) (xs : List ℕ) → Misses test xs → last_position test xs ≡ none
last_position-none test [] h = refl
last_position-none test (x ∷ xs) (hx, hs) = rw (last_position-none test xs hs, hx) refl

last_position-some :
    (test : ℕ → Bool) (xs : List ℕ) (x : ℕ) (ys : List ℕ)
    → test x ≡ true
    → Misses test ys
    → last_position test (xs ++ (x ∷ ys)) ≡ some (length xs)
last_position-some test [] x ys hx h = rw (last_position-none test ys h, hx) refl
last_position-some test (y ∷ xs) x ys hx h = rw (last_position-some test xs x ys hx h) refl

trim_string_cut :
    (str : List ℕ) (first last : ℕ)
    → position not_space str ≡ some first
    → last_position not_space str ≡ some last
    → first ≤ last
    → last < 2 ^ 63
    → trim_string str ≡ take (last + 1 - first) (drop first str)
unfolding trim_string
trim_string_cut str first last hf hl ho hs =
    let size : (2 ^ 64 + last + 1 - first) % 2 ^ 64 ≡ last + 1 - first = omega arith in
    rw (hf, hl, size) refl

-- A text with blanks around it that neither starts nor ends in a blank: `trim_string` takes the
-- blanks off.
pub trim_string-blanks :
    (before core after : List ℕ) (x y : ℕ) (xs ys : List ℕ)
    → core ≡ x ∷ xs
    → core ≡ ys ++ (y ∷ [])
    → not_space x ≡ true
    → not_space y ≡ true
    → Blank before
    → Blank after
    → length (before ++ (core ++ after)) < 2 ^ 63
    → trim_string (before ++ (core ++ after)) ≡ core
trim_string-blanks before core after x y xs ys hx hy nx ny hb ha hs =
    let f = length before in
    let l = length (before ++ ys) in
    let first : position not_space (before ++ (core ++ after)) ≡ some f =
      rw hx (position-some not_space before x (xs ++ after) hb nx) in
    let ends : before ++ (core ++ after) ≡ (before ++ ys) ++ (y ∷ after) =
      rw (hy, append_assoc ys (y ∷ []) after, append_assoc before ys (y ∷ after)) refl in
    let last : last_position not_space (before ++ (core ++ after)) ≡ some l =
      rw ends (last_position-some not_space (before ++ ys) y after ny ha) in
    let whole = length-append before (core ++ after) in
    let size : length core ≡ length ys + 1 = ap length hy ∙ length-append ys (y ∷ []) in
    trim_string_cut (before ++ (core ++ after)) f l first last
      (omega (arith, length-append before ys))
      (omega (arith, length-append before ys, whole, length-append core after))
    ∙ ap (take (l + 1 - f)) (drop-append before (core ++ after) f refl)
    ∙ take-append core after (l + 1 - f) (omega (arith, length-append before ys))

-- A string of blanks stays as it is: with no char to find, the two indices default to its bounds.
trim_string-Blank : (cs : List ℕ) → Blank cs → length cs < 2 ^ 63 → trim_string cs ≡ cs
unfolding trim_string
trim_string-Blank cs h hs =
    let size : (2 ^ 64 + length cs + 1 - 0) % 2 ^ 64 ≡ length cs + 1 = omega arith in
    rw (position-none not_space cs h, last_position-none not_space cs h, size)
      (take_long (length cs + 1) cs (omega arith))
