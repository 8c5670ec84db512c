-- ===== src/Util/StringUtil.antt =====
-- include/util/string_util.hpp. A string is the list of its chars, as numbers below 256.
pub mod Split
pub mod Join
pub mod Trim
pub mod Replace
pub mod ReplaceTo
use cppnet.Prelude.{
  Bool, List, Option, [], drop, false, get_elem?, if◌then◌else◌, leb, length, ltb, none, not, some,
  suc, take, true, zero, ℕ, ◌%◌, ◌&&◌, ◌++◌, ◌+◌, ◌-◌, ◌==◌, ◌^◌, ◌∷◌,
}
use cppnet.Prelude.Strings.{position, find_from, one_of, starts_with}

-- `join` of a separator and the strings of an initializer list.
unfoldable pub join_rest : List ℕ → List (List ℕ) → List ℕ
join_rest join_with [] = []
join_rest join_with (s ∷ strings) = join_with ++ (s ++ join_rest join_with strings)

unfoldable pub join : List ℕ → List (List ℕ) → List ℕ
unfolding join_rest
join join_with [] = []
join join_with (s ∷ []) = s
join join_with (s ∷ t ∷ strings) = s ++ join_rest join_with (t ∷ strings)

-- What a loop has yielded in front of what its rest yields.
abbrev pub yielded {ℓ} : {A : Type ℓ} → A → Option (List A) → Option (List A)
yielded x none = none
yielded x (some xs) = some (x ∷ xs)

-- The loop of `split_string`, `for (auto i = start; i <= input.length(); ++i)`, with what it
-- yields. Without fuel it has not ended.
unfoldable pub split_loop : ℕ → List ℕ → ℕ → ℕ → Option (List (List ℕ))
split_loop zero input sep i = none
split_loop (suc n) input sep i =
    let next : Option ℕ = find_from (λ c. c == sep) input i in
    if leb i (length input)
    then (elim next [
      | none ↦ some (drop i input ∷ [])
      | some next ↦ yielded (take (next - i) (drop i input)) (split_loop n input sep (next + 1))
    ])
    else some []

unfoldable pub split_string : List ℕ → ℕ → ℕ → Option (List (List ℕ))
unfolding split_loop
split_string input sep start = split_loop (length input + 2) input sep start

-- `std::tolower` in the C locale.
abbrev pub to_lower : ℕ → ℕ
to_lower c = if leb 65 c && leb c 90 then c + 32 else c

-- `std::equal` of two ranges under a test of two elements.
abbrev pub equal_by : (ℕ → ℕ → Bool) → List ℕ → List ℕ → Bool
equal_by test [] [] = true
equal_by test (x ∷ xs) (y ∷ ys) = test x y && equal_by test xs ys
equal_by test xs ys = false

unfoldable pub equal_ignore_case : List ℕ → List ℕ → Bool
equal_ignore_case lhs rhs = equal_by (λ l r. to_lower l == to_lower r) lhs rhs

pub less_ignore_case : List ℕ → List ℕ → Bool
less_ignore_case lhs rhs = equal_by (λ l r. ltb (to_lower l) (to_lower r)) lhs rhs

-- The bytes of the literal, whose code points above 127 are three bytes of UTF-8 each.
abbrev pub whitespace : List ℕ
whitespace =
    32 ∷ 8 ∷ 12 ∷ 10 ∷ 13 ∷ 9 ∷ 11 ∷ 0xe2 ∷ 0x80 ∷ 0x80 ∷ 0xe2 ∷ 0x80 ∷ 0x81 ∷ 0xe2 ∷ 0x80 ∷ 0x82
    ∷ 0xe2 ∷ 0x80 ∷ 0x83 ∷ 0xe2 ∷ 0x80 ∷ 0x84 ∷ 0xe2 ∷ 0x80 ∷ 0x85 ∷ 0xe2 ∷ 0x80 ∷ 0x86 ∷ 0xe2
    ∷ 0x80 ∷ 0x87 ∷ 0xe2 ∷ 0x80 ∷ 0x88 ∷ 0xe2 ∷ 0x80 ∷ 0x89 ∷ 0xe2 ∷ 0x80 ∷ 0x8a ∷ 0xe2 ∷ 0x80
    ∷ 0xa8 ∷ 0xe2 ∷ 0x80 ∷ 0xa9 ∷ 0xe2 ∷ 0x80 ∷ 0xaf ∷ 0xe2 ∷ 0x81 ∷ 0x9f ∷ 0xe3 ∷ 0x80 ∷ 0x80 ∷ []

abbrev pub is_space : ℕ → Bool
is_space = one_of whitespace

-- The index of the last char that passes the test.
abbrev pub last_position : (ℕ → Bool) → List ℕ → Option ℕ
last_position test [] = none
last_position test (x ∷ xs) =
    let here = if test x then some 0 else none in
    elim (last_position test xs) [ some i ↦ some (suc i) | none ↦ here ]

-- `last_not_space -= first_not_space - 1` wraps.
pub trim_string : List ℕ → List ℕ
trim_string str =
    let first : ℕ = elim (position (λ c. not (is_space c)) str) [ some i ↦ i | none ↦ 0 ] in
    let last : ℕ = elim (last_position (λ c. not (is_space c)) str) [
      | some i ↦ i
      | none ↦ length str
    ] in
    take ((2 ^ 64 + last + 1 - first) % 2 ^ 64) (drop first str)

pub unquote : List ℕ → List ℕ
unquote [] = []
unquote (first ∷ rest) =
    let size = length (first ∷ rest) in
    let back : ℕ = elim (get_elem? (first ∷ rest) (size - 1)) [ some c ↦ c | none ↦ 0 ] in
    if ltb size 3
    then first ∷ rest
    else if not (first == 34) && not (first == 39)
    then first ∷ rest
    else if not (first == back)
    then first ∷ rest
    else take (size - 2) rest

-- What is written to a stream in front of what its rest writes.
abbrev pub written : List ℕ → Option (List ℕ) → Option (List ℕ)
written s none = none
written s (some out) = some (s ++ out)

-- `replace`, whose loop ends when the view is empty. Without fuel it has not ended.
pub replace_loop : ℕ → List ℕ → List ℕ → List ℕ → Option (List ℕ)
replace_loop n [] pattern with_this = some []
replace_loop zero (c ∷ view) pattern with_this = none
replace_loop (suc n) (c ∷ view) pattern with_this =
    if starts_with (c ∷ view) pattern
    then written with_this (replace_loop n (drop (length pattern) (c ∷ view)) pattern with_this)
    else written (c ∷ []) (replace_loop n view pattern with_this)

pub replace : List ℕ → List ℕ → List ℕ → Option (List ℕ)
unfolding replace_loop
replace view pattern with_this = replace_loop (length view) view pattern with_this

-- The first of the replacements whose left side the view starts with.
abbrev pub find_replacement : List ℕ → List (List ℕ × List ℕ) → Option (List ℕ × List ℕ)
find_replacement view [] = none
find_replacement view (r ∷ replacements) =
    if starts_with view r.0 then some r else find_replacement view replacements

pub replace_all_loop : ℕ → List ℕ → List (List ℕ × List ℕ) → Option (List ℕ)
replace_all_loop n [] replacements = some []
replace_all_loop zero (c ∷ view) replacements = none
replace_all_loop (suc n) (c ∷ view) replacements = elim (find_replacement (c ∷ view) replacements) [
  | some r ↦ written r.1 (replace_all_loop n (drop (length r.0) (c ∷ view)) replacements)
  | none ↦ written (c ∷ []) (replace_all_loop n view replacements)
]

-- `replace_all_to` a stream, and `replace_all`.
pub replace_all : List ℕ → List (List ℕ × List ℕ) → Option (List ℕ)
unfolding replace_all_loop
replace_all view replacements = replace_all_loop (length view) view replacements
