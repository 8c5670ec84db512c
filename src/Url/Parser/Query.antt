-- ===== src/Url/Parser/Query.antt =====
-- `parse_query` of src/url.cpp.

use cppnet.Prelude.{
  Bool, List, Option, [], drop, false, if◌then◌else◌, leb, length, none, some, suc, take, true,
  zero, ℕ, ◌&&◌, ◌++◌, ◌+◌, ◌-◌, ◌==◌, ◌∷◌,
}
use cppnet.Prelude.Memory.{◌>>?◌, Run, done, fault}
use cppnet.Prelude.Strings.{position, find_from}
use cppnet.Url.Percent.{decode}
use cppnet.Url.Parser.{Parser, fragment_state, done_state}

abbrev same_text : List ℕ → List ℕ → Bool
same_text [] [] = true
same_text (x ∷ xs) (y ∷ ys) = (x == y) && same_text xs ys
same_text xs ys = false

-- `query.try_emplace(key)` followed by `emplace_back` of each of the values.
abbrev pub add_values :
    List ℕ → List (List ℕ) → List (List ℕ × List (List ℕ)) → List (List ℕ × List (List ℕ))
add_values key values [] = (key, values) ∷ []
add_values key values (entry ∷ entries) =
    if same_text entry.0 key
    then (entry.0, entry.1 ++ values) ∷ entries
    else entry ∷ add_values key values entries

-- One round of the loop of `parse_query`: the entry of one variable, and what is left behind its
-- `&`, if there is one.
unfoldable pub query_round :
    List ℕ → List (List ℕ × List (List ℕ)) → Run (Option (List (List ℕ × List (List ℕ))))
query_round kv entries = elim (position (λ c. c == b'=') kv) [
  | none ↦ decode kv >>? λ key. done (some (add_values key [] entries))
  | some eq_idx ↦ decode (take eq_idx kv) >>? λ key.
      decode (drop (eq_idx + 1) kv) >>? λ val. done (some (add_values key (val ∷ []) entries))
]

unfoldable pub query_loop :
    ℕ → List ℕ → List (List ℕ × List (List ℕ)) → Run (Option (List (List ℕ × List (List ℕ))))
unfolding query_round
query_loop fuel [] entries = done (some entries)
query_loop zero (c ∷ raw) entries = done none
query_loop (suc fuel) (c ∷ raw) entries = elim (position (λ x. x == b'&') (c ∷ raw)) [
  | none ↦ query_round (c ∷ raw) entries
  | some next_var ↦ query_round (take next_var (c ∷ raw)) entries >>? λ entries'.
      query_loop fuel (drop (next_var + 1) (c ∷ raw)) entries'
]

module _ (input : List ℕ) where
  -- `parse_query` after its search for the fragment.
  unfoldable pub parse_query_to : Option ℕ → Parser → Run (Option Parser)
  unfolding query_loop
  parse_query_to none p =
      let raw = drop p.start input in
      query_loop (length raw) raw p.out.query >>? λ entries. done (
        some (record p {
          out = record p.out { query = entries };
          state = done_state;
          end = length input;
        }))
  parse_query_to (some idx) p =
      let raw = take (idx - p.start) (drop p.start input) in
      query_loop (length raw) raw p.out.query >>? λ entries. done (
        some (record {
          out = record p.out { query = entries };
          state = fragment_state;
          start = idx + 1;
          end = idx + 1;
        }))

  unfoldable pub parse_query : Parser → Run (Option Parser)
  unfolding parse_query_to
  parse_query p =
      if leb p.start (length input)
      then parse_query_to (find_from (λ c. c == b'#') input p.start) p
      else fault
