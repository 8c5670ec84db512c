-- ===== src/Util/StringUtil/ReplaceTo.antt =====
-- `replace_all_to` a writer, of include/util/string_util.hpp.

use cppnet.Prelude.{
  ℕ, List, Option, [], ◌∷◌, ◌++◌, ◌≡◌, length, none, some, sym, ◌∙◌, refl, Option-cases, inl, inr,
  zero, suc, drop,
}
use cppnet.Io.{Writer, IsSink}
use cppnet.Io.WriteAll.{
  Call, Appends, write_text, write_text-Appends, write_char, write_char-Appends,
}
use cppnet.Io.Counted.{
  counted_round, AppendsFrom, nothing-AppendsFrom, AppendsFrom-Appends, counted_round-AppendsFrom,
}
use cppnet.Util.StringUtil.{find_replacement, replace_all_loop, replace_all, written}
use cppnet.Util.StringUtil.Replace.{replace_all_loop_found, replace_all_loop_missed}
use mathlib.Core.Path.{subst}

-- The text of a rest that ends.
written-parts :
    (t : List ℕ) (o : Option (List ℕ)) (text : List ℕ)
    → written t o ≡ some text
    → (rest : List ℕ) × (o ≡ some rest) × (t ++ rest ≡ text)
written-parts t none text e = absurd (cc (e))
written-parts t (some rest) text e = (rest, refl, cc (e))

module _ {S : Type 0} (stale : ℕ → ℕ) (out : Writer S) where
  -- The loop. Without fuel it has not ended.
  pub replace_all_to_loop : ℕ → List ℕ → List (List ℕ × List ℕ) → ℕ → Call S
  replace_all_to_loop n [] replacements total s = some (record { count = total; err = none }, s)
  replace_all_to_loop zero (c ∷ view) replacements total s = none
  replace_all_to_loop (suc n) (c ∷ view) replacements total s =
      elim (find_replacement (c ∷ view) replacements) [
        | some r ↦
            counted_round total (write_text out r.1)
              (replace_all_to_loop n (drop (length r.0) (c ∷ view)) replacements) s
        | none ↦
            counted_round total (write_char stale out c) (replace_all_to_loop n view replacements) s
      ]

  pub replace_all_to : List ℕ → List (List ℕ × List ℕ) → Call S
  unfolding replace_all_to_loop
  replace_all_to view replacements s = replace_all_to_loop (length view) view replacements 0 s

  module _ (kept : (c : ℕ) → stale c ≡ c) (appended : S → List ℕ) (sink : IsSink out appended) where
    replace_all_to_loop-AppendsFrom :
        (n : ℕ) (view : List ℕ) (rs : List (List ℕ × List ℕ)) (text : List ℕ)
        → replace_all_loop n view rs ≡ some text
        → (total : ℕ) → AppendsFrom appended total (replace_all_to_loop n view rs) text
    unfolding replace_all_to_loop replace_all_loop
    replace_all_to_loop-AppendsFrom n [] rs text e total =
        subst (AppendsFrom appended total (replace_all_to_loop n [] rs)) (cc (e))
          (nothing-AppendsFrom appended total)
    replace_all_to_loop-AppendsFrom zero (c ∷ view) rs text e total = absurd (cc (e))
    replace_all_to_loop-AppendsFrom (suc n) (c ∷ view) rs text e total =
        elim (Option-cases (find_replacement (c ∷ view) rs)) [
          | inr (r, found) ↦
              let view' = drop (length r.0) (c ∷ view) in
              let rest =
                written-parts r.1 (replace_all_loop n view' rs) text
                  (sym (replace_all_loop_found n c view rs r found) ∙ e) in
              counted_round-AppendsFrom appended total r.1 rest.0 text (write_text out r.1)
                (replace_all_to_loop n view' rs) (replace_all_to_loop (suc n) (c ∷ view) rs) rest.2
                (write_text-Appends out appended sink r.1)
                (replace_all_to_loop-AppendsFrom n view' rs rest.0 rest.1)
                (λ s. rw (found, replace_all_to_loop) refl)
          | inl missed ↦
              let rest =
                written-parts (c ∷ []) (replace_all_loop n view rs) text
                  (sym (replace_all_loop_missed n c view rs missed) ∙ e) in
              counted_round-AppendsFrom appended total (c ∷ []) rest.0 text (write_char stale out c)
                (replace_all_to_loop n view rs) (replace_all_to_loop (suc n) (c ∷ view) rs) rest.2
                (write_char-Appends stale out appended sink c (kept c))
                (replace_all_to_loop-AppendsFrom n view rs rest.0 rest.1)
                (λ s. rw (missed, replace_all_to_loop) refl)
        ]

    -- Over a sink, if the char that write takes by value is still in its place when the task of the
    -- write runs, where replace_all ends with a text, replace_all_to a writer ends, and without an
    -- error it has appended this text and counted its bytes.
    pub replace_all_to-replace_all :
        (view : List ℕ) (rs : List (List ℕ × List ℕ)) (text : List ℕ)
        → replace_all view rs ≡ some text
        → (s : S) → Appends appended (replace_all_to view rs) text s
    unfolding replace_all_to replace_all
    replace_all_to-replace_all view rs text e =
        AppendsFrom-Appends appended (replace_all_to_loop (length view) view rs) text
          (replace_all_to_loop-AppendsFrom (length view) view rs text e 0)
