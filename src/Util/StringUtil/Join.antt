-- ===== src/Util/StringUtil/Join.antt =====
-- `join` after `split_string`, and `split_string` after `join`.

use cppnet.Prelude.{
  ==_iff, ==_refl, All, Bool-cases, List, [], ap, append-nil, ap₂, arith, false, inl, inr, refl,
  some, sym, ℕ, ◌++◌, ◌==◌, ◌∙◌, ◌∷◌, ◌≡◌,
}
use cppnet.Prelude.Strings.{Misses}
use cppnet.Util.StringUtil.{join_rest, join, split_string}
use cppnet.Util.StringUtil.Split.{cons_head, pieces, pieces_none, pieces_some, split_string-pieces}

join_cons : (w s : List ℕ) (ps : List (List ℕ)) → join w (s ∷ ps) ≡ s ++ join_rest w ps
unfolding join join_rest
join_cons w s [] = sym (append-nil s)
join_cons w s (p ∷ ps) = refl

module _ (sep : ℕ) where
  join-cons_head :
      (w : List ℕ) (c : ℕ) (ps : List (List ℕ)) → join w (cons_head c ps) ≡ c ∷ join w ps
  unfolding join
  join-cons_head w c [] = refl
  join-cons_head w c (p ∷ []) = refl
  join-cons_head w c (p ∷ q ∷ ps) = refl

  pieces_cons : (cs : List ℕ) → (p : List ℕ) × ((ps : List (List ℕ)) × (pieces sep cs ≡ p ∷ ps))
  pieces_cons [] = ([], ([], refl))
  pieces_cons (c ∷ cs) = elim (Bool-cases (c == sep)) [
    | inl h ↦ ([], (pieces sep cs, rw h refl))
    | inr h ↦ let rest = pieces_cons cs in (c ∷ rest.0, (rest.1.0, rw (h, rest.1.1) refl))
  ]

  join-nil :
      (cs : List ℕ) → join (sep ∷ []) ([] ∷ pieces sep cs) ≡ sep ∷ join (sep ∷ []) (pieces sep cs)
  unfolding join_rest
  join-nil cs =
      let first = pieces_cons cs in
      rw first.1.1 (
        join_cons (sep ∷ []) [] (first.0 ∷ first.1.0)
        ∙ ap (λ t. sep ∷ t) (sym (join_cons (sep ∷ []) first.0 first.1.0)))

  join-pieces : (cs : List ℕ) → join (sep ∷ []) (pieces sep cs) ≡ cs
  join-pieces [] = unfold join in refl
  join-pieces (c ∷ cs) = elim (Bool-cases (c == sep)) [
    | inl h ↦ rw h (join-nil cs ∙ ap₂ (λ x t. x ∷ t) (sym ((==_iff c sep).0 h)) (join-pieces cs))
    | inr h ↦ rw h (join-cons_head (sep ∷ []) c (pieces sep cs) ∙ ap (λ t. c ∷ t) (join-pieces cs))
  ]

  cons_head-miss :
      (c : ℕ) (ps : List (List ℕ))
      → (c == sep) ≡ false
      → All (λ p. Misses (λ x. x == sep) p) ps
      → All (λ p. Misses (λ x. x == sep) p) (cons_head c ps)
  cons_head-miss c [] h hs = ((h, tt), tt)
  cons_head-miss c (p ∷ ps) h (hp, hs) = ((h, hp), hs)

  pieces_miss : (cs : List ℕ) → All (λ p. Misses (λ c. c == sep) p) (pieces sep cs)
  pieces_miss [] = (tt, tt)
  pieces_miss (c ∷ cs) = elim (Bool-cases (c == sep)) [
    | inl h ↦ rw h (tt, pieces_miss cs)
    | inr h ↦ rw h (cons_head-miss c (pieces sep cs) h (pieces_miss cs))
  ]

  pieces-join_rest :
      (p : List ℕ) (ps : List (List ℕ))
      → All (λ s. Misses (λ c. c == sep) s) (p ∷ ps)
      → pieces sep (p ++ join_rest (sep ∷ []) ps) ≡ p ∷ ps
  unfolding join_rest
  pieces-join_rest p [] (hp, _) = ap (pieces sep) (append-nil p) ∙ pieces_none sep p hp
  pieces-join_rest p (q ∷ ps) (hp, hq) =
      pieces_some sep p sep (q ++ join_rest (sep ∷ []) ps) hp (==_refl sep)
      ∙ ap (λ t. p ∷ t) (pieces-join_rest q ps hq)

-- Without a start, the pieces joined by the separator give the input back.
pub join-split_string :
    (input : List ℕ) (sep : ℕ)
    → (ps : List (List ℕ)) × (split_string input sep 0 ≡ some ps)
      × (join (sep ∷ []) ps ≡ input)
      × All (λ p. Misses (λ c. c == sep) p) ps
join-split_string input sep = (
  pieces sep input,
  split_string-pieces input sep 0 (omega arith),
  join-pieces sep input,
  pieces_miss sep input,
)

-- Strings without the separator, at least one of them: `split_string` undoes `join`.
pub split_string-join :
    (sep : ℕ) (p : List ℕ) (ps : List (List ℕ))
    → All (λ s. Misses (λ c. c == sep) s) (p ∷ ps)
    → split_string (join (sep ∷ []) (p ∷ ps)) sep 0 ≡ some (p ∷ ps)
split_string-join sep p ps h =
    split_string-pieces (join (sep ∷ []) (p ∷ ps)) sep 0 (omega arith)
    ∙ ap some (ap (pieces sep) (join_cons (sep ∷ []) p ps) ∙ pieces-join_rest sep p ps h)
