-- ===== src/Util/StringUtil/Split.antt =====
-- `split_string` against a split by recursion on the string, and `join` after it.

use cppnet.Util.StringUtil.{split_loop, split_string}
use cppnet.Util.StringUtil.{split_loop, split_string}
use cppnet.Prelude.Strings.{find_from, Misses, search_cases, find_from-none, find_from-some}
use cppnet.Prelude.{
  List, [], if◌then◌else◌, ℕ, ◌==◌, ◌∷◌, Bool, arith, drop-append, inl, inr, leb, length,
  length-append, none, refl, some, suc, true, zero, ◌++◌, ◌+◌, ◌<◌, ◌≡◌, ap, append_assoc, drop,
  length-drop, length-take, sym, take, take-append, take-append-drop, ◌-◌, ◌∙◌, ◌≤◌,
}

abbrev pub cons_head : ℕ → List (List ℕ) → List (List ℕ)
cons_head c [] = (c ∷ []) ∷ []
cons_head c (piece ∷ pieces) = (c ∷ piece) ∷ pieces

-- The pieces between the separators, which are one more than the separators.
abbrev pub pieces : ℕ → List ℕ → List (List ℕ)
pieces sep [] = [] ∷ []
pieces sep (c ∷ cs) = if c == sep then [] ∷ pieces sep cs else cons_head c (pieces sep cs)

module _ (sep : ℕ) where
  pub pieces_none : (cs : List ℕ) → Misses (λ c. c == sep) cs → pieces sep cs ≡ cs ∷ []
  pieces_none [] h = refl
  pieces_none (c ∷ cs) (hc, h) = rw (hc, pieces_none cs h) refl

  pub pieces_some :
      (before : List ℕ) (x : ℕ) (after : List ℕ)
      → Misses (λ c. c == sep) before
      → (x == sep) ≡ true
      → pieces sep (before ++ (x ∷ after)) ≡ before ∷ pieces sep after
  pieces_some [] x after h hx = rw hx refl
  pieces_some (c ∷ before) x after (hc, h) hx = rw (hc, pieces_some before x after h hx) refl

  split_loop_lem :
      (n : ℕ) (input past rest : List ℕ) (i : ℕ)
      → input ≡ past ++ rest
      → i ≡ length past
      → length rest < n
      → split_loop n input sep i ≡ some (pieces sep rest)
  unfolding split_loop
  split_loop_lem zero input past rest i hin hi hn = absurd (omega arith)
  split_loop_lem (suc n) input past rest i hin hi hn =
      let test : ℕ → Bool = λ c. c == sep in
      let inside : leb i (length input) ≡ true = rw hin (ground (arith, length-append past rest)) in
      elim (search_cases test rest) [
        | inl h ↦
            let none_left : find_from test input i ≡ none =
              rw hin (find_from-none test past rest i hi h) in
            rw (inside, none_left, hin, drop-append past rest i hi, pieces_none rest h) refl
        | inr (before, x, after, e, h, hx) ↦
            let found : find_from test input i ≡ some (i + length before) =
              rw (hin, e) (find_from-some test past before x after i hi h hx) in
            let next = i + length before in
            let ih =
              split_loop_lem n input (past ++ (before ++ (x ∷ []))) after (next + 1)
                (hin
                  ∙ ap (λ t. past ++ t) (e ∙ sym (append_assoc before (x ∷ []) after))
                  ∙ sym (append_assoc past (before ++ (x ∷ [])) after))
                (omega
                  (arith, length-append past (before ++ (x ∷ [])), length-append before (x ∷ [])))
                (omega (arith, length-append before (x ∷ after), ap length e)) in
            let piece : take (next - i) (drop i input) ≡ before =
              ap (λ t. take (next - i) (drop i t)) hin
              ∙ ap (take (next - i)) (drop-append past rest i hi ∙ e)
              ∙ take-append before (x ∷ after) (next - i) (omega arith) in
            rw (inside, found, piece, ih, e, pieces_some before x after h hx) refl
      ]

-- From a `start` within the input on, `split_string` ends and yields the pieces between the
-- separators.
pub split_string-pieces :
    (input : List ℕ) (sep start : ℕ)
    → start ≤ length input
    → split_string input sep start ≡ some (pieces sep (drop start input))
unfolding split_string
split_string-pieces input sep start h =
    split_loop_lem sep (length input + 2) input (take start input) (drop start input) start
      (sym (take-append-drop start input)) (omega (arith, length-take start input))
      (omega (arith, length-drop start input))
