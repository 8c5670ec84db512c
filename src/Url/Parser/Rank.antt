-- ===== src/Url/Parser/Rank.antt =====
-- The order of the parser's states, and the chars that start a part of the url.

use cppnet.Prelude.Strings.{one_of, position, find_from, position-none, position-some, search_cases}
use cppnet.Prelude.{
  Bool-cases, List, arith, inl, inr, length, ℕ, ◌+◌, ◌<◌, ◌==◌, ◌≡◌, Bool, false, if◌then◌else◌,
  some, true, ◌∷◌, ◌≤◌, codes, drop, take, Option, ap, append_assoc, length-append, length-drop,
  length-take, min, none, sym, take-append-drop, ◌++◌, ◌∙◌,
}
use cppnet.Prelude.Memory.{done, read, read-append}
use cppnet.Url.Parser.{
  next_state, State, scheme_state, authority_state, userinfo_state, host_state, port_state,
  path_state, query_state, fragment_state, done_state,
}

abbrev pub rank : State → ℕ → ℕ
rank scheme_state left = 8 + left
rank authority_state left = 8
rank userinfo_state left = 7
rank host_state left = 6
rank port_state left = 5
rank path_state left = 4
rank query_state left = 3
rank fragment_state left = 2
rank done_state left = min left 1

pub no_scheme-rank :
    (a b : Bool) (left : ℕ)
    → rank (if a then authority_state else if b then path_state else host_state) left ≤ 8
no_scheme-rank true b left = omega arith
no_scheme-rank false true left = omega arith
no_scheme-rank false false left = omega arith

-- A char starts a part of a rank below `k`.
abbrev pub Starts : ℕ → ℕ → Type 0
Starts k c = (s : State) × (next_state c ≡ some s) × ((left : ℕ) → rank s left < k)

pub path-Starts : (c : ℕ) → one_of (codes "?#") c ≡ true → Starts 4 c
path-Starts c h = elim (Bool-cases (c == b'?')) [
  | inl e ↦ (query_state, ground (arith, e), λ left. omega arith)
  | inr e ↦ (fragment_state, ground (arith, e, h), λ left. omega arith)
]

pub port-Starts : (c : ℕ) → one_of (codes "/?#") c ≡ true → Starts 5 c
port-Starts c h = elim (Bool-cases (c == b'/')) [
  | inl e ↦ (path_state, ground (arith, e), λ left. omega arith)
  | inr e ↦
      let (s, hs, hr) = path-Starts c (ground (arith, e, h)) in
      (s, hs, λ left. omega (arith, hr left))
]

pub host-Starts : (c : ℕ) → one_of (codes ":/?#") c ≡ true → Starts 6 c
host-Starts c h = elim (Bool-cases (c == b':')) [
  | inl e ↦ (port_state, ground (arith, e), λ left. omega arith)
  | inr e ↦
      let (s, hs, hr) = port-Starts c (ground (arith, e, h)) in
      (s, hs, λ left. omega (arith, hr left))
]

pub some-injective : (a b : ℕ) → ◌≡◌ {A = Option ℕ} (some a) (some b) → a ≡ b
some-injective a b h = cc

pub some-none : (a : ℕ) → ◌≡◌ {A = Option ℕ} (some a) none → ⊥
some-none a h = ground (arith, h)

-- The search finds no place behind the end, and there a char that passes the test.
pub find_from-read :
    (test : ℕ → Bool) (input : List ℕ) (i idx : ℕ)
    → find_from test input i ≡ some idx
    → (c : ℕ) × (read input idx ≡ done c) × (test c ≡ true)
find_from-read test input i idx h = elim (search_cases test (drop i input)) [
  | inl none_left ↦ absurd (
      some-none idx (
        sym h
        ∙ ap (λ o. elim o [ some k ↦ some (i + k) | none ↦ none ])
            (position-none test (drop i input) none_left)))
  | inr (before, x, after, e, hb, hx) ↦
      let place : position test (drop i input) ≡ some (length before) =
        rw e (position-some test before x after hb hx) in
      let same : idx ≡ i + length before =
        some-injective idx (i + length before)
          (sym h ∙ ap (λ o. elim o [ some k ↦ some (i + k) | none ↦ none ]) place) in
      let whole : input ≡ (take i input ++ before) ++ (x ∷ after) =
        sym (take-append-drop i input)
        ∙ ap (λ t. take i input ++ t) e
        ∙ sym (append_assoc (take i input) before (x ∷ after)) in
      let size = ap length e ∙ length-append before (x ∷ after) in
      (
        x,
        ap (λ t. read t idx) whole
            ∙ read-append (take i input ++ before) x after idx (
                omega (
                  arith,
                  same,
                  length-append (take i input) before,
                  length-take i input,
                  length-drop i input,
                  size,
                )),
        hx,
      )
]
