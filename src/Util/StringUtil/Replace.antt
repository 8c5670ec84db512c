-- ===== src/Util/StringUtil/Replace.antt =====
-- `replace` and `replace_all`: when they end, and what they write.

use cppnet.Util.StringUtil.{
  written, replace_loop, replace, find_replacement, replace_all_loop, replace_all,
}
use cppnet.Prelude.{
  All, Bool-cases, List, Option, Option-cases, [], ap, arith, drop, if◌then◌else◌, inl, inr, length,
  length-drop, map, none, refl, some, suc, zero, ℕ, ◌++◌, ◌<◌, ◌==◌, ◌∷◌, ◌≡◌, ◌≤◌, ◌⊎◌, sym, ◌∙◌,
  false, true,
}
use cppnet.Prelude.Strings.{starts_with}
use mathlib.Core.Path.{subst}
use cppnet.Util.StringUtil.{
  written, replace_loop, replace, find_replacement, replace_all_loop, replace_all,
}

pub replace_all_loop_found :
    (n c : ℕ) (view : List ℕ) (rs : List (List ℕ × List ℕ)) (r : List ℕ × List ℕ)
    → find_replacement (c ∷ view) rs ≡ some r
    → replace_all_loop (suc n) (c ∷ view) rs
      ≡ written r.1 (replace_all_loop n (drop (length r.0) (c ∷ view)) rs)
unfolding replace_all_loop
replace_all_loop_found n c view rs r e = rw (e, replace_all_loop) refl

pub replace_all_loop_missed :
    (n c : ℕ) (view : List ℕ) (rs : List (List ℕ × List ℕ))
    → find_replacement (c ∷ view) rs ≡ none
    → replace_all_loop (suc n) (c ∷ view) rs ≡ written (c ∷ []) (replace_all_loop n view rs)
unfolding replace_all_loop
replace_all_loop_missed n c view rs e = rw (e, replace_all_loop) refl

replace_loop_found :
    (n c : ℕ) (view pattern with_this : List ℕ)
    → starts_with (c ∷ view) pattern ≡ true
    → replace_loop (suc n) (c ∷ view) pattern with_this
      ≡ written with_this (replace_loop n (drop (length pattern) (c ∷ view)) pattern with_this)
unfolding replace_loop
replace_loop_found n c view pattern with_this h = rw h refl

replace_loop_missed :
    (n c : ℕ) (view pattern with_this : List ℕ)
    → starts_with (c ∷ view) pattern ≡ false
    → replace_loop (suc n) (c ∷ view) pattern with_this
      ≡ written (c ∷ []) (replace_loop n view pattern with_this)
unfolding replace_loop
replace_loop_missed n c view pattern with_this h = rw h refl

replace_loop-replace_all_loop :
    (n : ℕ) (view pattern with_this : List ℕ)
    → replace_loop n view pattern with_this ≡ replace_all_loop n view ((pattern, with_this) ∷ [])
replace_loop-replace_all_loop zero [] pattern with_this =
    unfold replace_loop in unfold replace_all_loop in refl
replace_loop-replace_all_loop (suc n) [] pattern with_this =
    unfold replace_loop in unfold replace_all_loop in refl
replace_loop-replace_all_loop zero (c ∷ v) pattern with_this =
    unfold replace_loop in unfold replace_all_loop in refl
replace_loop-replace_all_loop (suc n) (c ∷ v) pattern with_this =
    let rs : List (List ℕ × List ℕ) = (pattern, with_this) ∷ [] in
    elim (Bool-cases (starts_with (c ∷ v) pattern)) [
      | inl h ↦
          let ih =
            replace_loop-replace_all_loop n (drop (length pattern) (c ∷ v)) pattern with_this in
          replace_loop_found n c v pattern with_this h
          ∙ ap (written with_this) ih
          ∙ sym (replace_all_loop_found n c v rs (pattern, with_this) (rw h refl))
      | inr h ↦
          replace_loop_missed n c v pattern with_this h
          ∙ ap (written (c ∷ [])) (replace_loop-replace_all_loop n v pattern with_this)
          ∙ sym (replace_all_loop_missed n c v rs (rw h refl))
    ]

-- `replace` is `replace_all` with one replacement.
replace-replace_all :
    (view pattern with_this : List ℕ)
    → replace view pattern with_this ≡ replace_all view ((pattern, with_this) ∷ [])
unfolding replace replace_all
replace-replace_all view pattern with_this =
    replace_loop-replace_all_loop (length view) view pattern with_this

-- An empty pattern is found everywhere and takes nothing off the view: no fuel is enough.
replace_loop_stuck :
    (n c : ℕ) (view with_this : List ℕ) → replace_loop n (c ∷ view) [] with_this ≡ none
unfolding replace_loop
replace_loop_stuck zero c view with_this = refl
replace_loop_stuck (suc n) c view with_this = rw (replace_loop_stuck n c view with_this) refl

written-some :
    (s : List ℕ) (o : Option (List ℕ))
    → (out : List ℕ) × (o ≡ some out)
    → (out : List ℕ) × (written s o ≡ some out)
written-some s o (out, h) = (s ++ out, rw h refl)

some_injective :
    (q r : List ℕ × List ℕ) → ◌≡◌ {A = Option (List ℕ × List ℕ)} (some q) (some r) → q ≡ r
some_injective q r h = cc

find_replacement-All {ℓ} :
    (P : List ℕ × List ℕ → Type ℓ) (view : List ℕ) (rs : List (List ℕ × List ℕ))
    (r : List ℕ × List ℕ)
    → All P rs
    → find_replacement view rs ≡ some r
    → P r
find_replacement-All P view [] r h e = ground arith
find_replacement-All P view (q ∷ rs) r (hq, h) e = elim (Bool-cases (starts_with view q.0)) [
  | inl s ↦ subst P (some_injective q r (rw s at e)) hq
  | inr s ↦ find_replacement-All P view rs r h (rw s at e)
]

replace_all_loop_total :
    (n : ℕ) (view : List ℕ) (rs : List (List ℕ × List ℕ))
    → All (λ r. 0 < length r.0) rs
    → length view ≤ n
    → (out : List ℕ) × (replace_all_loop n view rs ≡ some out)
unfolding replace_all_loop
replace_all_loop_total zero [] rs h hn = ([], refl)
replace_all_loop_total (suc n) [] rs h hn = ([], refl)
replace_all_loop_total zero (c ∷ view) rs h hn = absurd (omega arith)
replace_all_loop_total (suc n) (c ∷ view) rs h hn =
    elim (Option-cases (find_replacement (c ∷ view) rs)) [
      | inl e ↦
          rw (e, replace_all_loop)
            (written-some (c ∷ []) _ (replace_all_loop_total n view rs h (omega arith)))
      | inr (r, e) ↦
          let long = find_replacement-All (λ r. 0 < length r.0) (c ∷ view) rs r h e in
          let rest =
            replace_all_loop_total n (drop (length r.0) (c ∷ view)) rs h
              (omega (arith, length-drop (length r.0) (c ∷ view))) in
          rw (e, replace_all_loop) (written-some r.1 _ rest)
    ]

-- If no pattern is empty, `replace_all` ends.
replace_all_total :
    (view : List ℕ) (rs : List (List ℕ × List ℕ))
    → All (λ r. 0 < length r.0) rs
    → (out : List ℕ) × (replace_all view rs ≡ some out)
unfolding replace_all
replace_all_total view rs h = replace_all_loop_total (length view) view rs h (omega arith)

-- The text for a char under replacements of single chars, of which the first counts.
abbrev pub char_text : List (ℕ × List ℕ) → ℕ → List ℕ
char_text [] c = c ∷ []
char_text (r ∷ rs) c = if c == r.0 then r.1 else char_text rs c

abbrev pub concat_map : (ℕ → List ℕ) → List ℕ → List ℕ
concat_map f [] = []
concat_map f (c ∷ cs) = f c ++ concat_map f cs

abbrev pub char_pattern : ℕ × List ℕ → List ℕ × List ℕ
char_pattern r = (r.0 ∷ [], r.1)

find_replacement-chars :
    (c : ℕ) (view : List ℕ) (rs : List (ℕ × List ℕ))
    → ((find_replacement (c ∷ view) (map char_pattern rs) ≡ none) × (char_text rs c ≡ c ∷ []))
      ⊎ ((r : List ℕ × List ℕ) × (find_replacement (c ∷ view) (map char_pattern rs) ≡ some r)
          × (drop (length r.0) (c ∷ view) ≡ view)
          × (r.1 ≡ char_text rs c))
find_replacement-chars c view [] = inl (refl, refl)
find_replacement-chars c view (r ∷ rs) = elim (Bool-cases (c == r.0)) [
  | inl h ↦ inr (char_pattern r, rw h refl, refl, rw h refl)
  | inr h ↦ rw h (find_replacement-chars c view rs)
]

replace_all_loop-chars :
    (n : ℕ) (view : List ℕ) (rs : List (ℕ × List ℕ))
    → length view ≤ n
    → replace_all_loop n view (map char_pattern rs) ≡ some (concat_map (char_text rs) view)
unfolding replace_all_loop
replace_all_loop-chars zero [] rs hn = refl
replace_all_loop-chars (suc n) [] rs hn = refl
replace_all_loop-chars zero (c ∷ view) rs hn = absurd (omega arith)
replace_all_loop-chars (suc n) (c ∷ view) rs hn =
    let ih = replace_all_loop-chars n view rs (omega arith) in
    elim (find_replacement-chars c view rs) [
      | inl (e, same) ↦ rw (e, replace_all_loop, same, ih) refl
      | inr (r, e, rest, same) ↦ rw (e, replace_all_loop, rest, ih, same) refl
    ]

-- With patterns of one char each, `replace_all` replaces char by char.
pub replace_all-chars :
    (view : List ℕ) (rs : List (ℕ × List ℕ))
    → replace_all view (map char_pattern rs) ≡ some (concat_map (char_text rs) view)
unfolding replace_all
replace_all-chars view rs = replace_all_loop-chars (length view) view rs (omega arith)
