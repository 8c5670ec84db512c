-- ===== src/Pattern/Match.antt =====
-- The states of `expr`, and `match` of src/pattern/pattern.cpp.
pub mod Repeat
use cppnet.Prelude.{
  ℕ, List, Bool, Option, [], ◌∷◌, ◌+◌, ◌==◌, ◌%◌, ◌^◌, if◌then◌else◌, leb, ltb, length, none, some,
  suc, zero, true, false, drop,
}
use cppnet.Prelude.Memory.{Run, done, fault, ◌>>=◌, ◌>>?◌, read}
use cppnet.Prelude.Strings.{starts_with}

pub data Repetition : Type 0 where
  once zero_or_one zero_or_more one_or_more : Repetition

-- The four structs of the variant.
pub data Impl : Type 0 where
  literal : List ℕ → Impl
  string_alternation : List (List ℕ) → Impl
  char_alternation : List ℕ → Impl
  wildcard : Impl

pub record State : Type 0 where
  pub impl : Impl
  pub rep : Repetition

abbrev pub should_repeat : Repetition → ℕ → Bool
should_repeat once current_matches = ltb current_matches 1
should_repeat zero_or_one current_matches = ltb current_matches 1
should_repeat zero_or_more current_matches = true
should_repeat one_or_more current_matches = true

abbrev pub repetition_satisfied : Repetition → ℕ → Bool
repetition_satisfied once current_matches = current_matches == 1
repetition_satisfied zero_or_one current_matches = ltb current_matches 2
repetition_satisfied zero_or_more current_matches = true
repetition_satisfied one_or_more current_matches = ltb 0 current_matches

-- `str.substr(offset)` throws where the offset is behind the end, which ends `match`.
abbrev pub match_text : List ℕ → List ℕ → ℕ → Run (Bool × ℕ)
match_text text str offset =
    if leb offset (length str)
    then done (
        if starts_with (drop offset str) text
        then (true, offset + length text)
        else (false, offset))
    else fault

abbrev pub or_else : Run (Bool × ℕ) → Bool × ℕ → Run (Bool × ℕ)
or_else rest (true, offset) = done (true, offset)
or_else rest (false, offset) = rest

abbrev pub match_any_text : List (List ℕ) → List ℕ → ℕ → Run (Bool × ℕ)
match_any_text [] str offset = done (false, offset)
match_any_text (choice ∷ choices) str offset =
    match_text choice str offset >>= or_else (match_any_text choices str offset)

abbrev pub match_char : ℕ → List ℕ → ℕ → Run (Bool × ℕ)
match_char c str offset =
    read str offset >>= λ d. done (if d == c then (true, offset + 1) else (false, offset))

abbrev pub match_any_char : List ℕ → List ℕ → ℕ → Run (Bool × ℕ)
match_any_char [] str offset = done (false, offset)
match_any_char (choice ∷ choices) str offset =
    match_char choice str offset >>= or_else (match_any_char choices str offset)

-- `match` of the struct in the variant: whether it matches, and the offset behind.
abbrev pub match_impl : Impl → List ℕ → ℕ → Run (Bool × ℕ)
match_impl (literal text) str offset = match_text text str offset
match_impl (string_alternation choices) str offset = match_any_text choices str offset
match_impl (char_alternation choices) str offset = match_any_char choices str offset
match_impl wildcard str offset = match_char b'.' str offset

-- What the loop of `state::match` does behind a match: `again` is the next round.
abbrev pub after_match :
    Repetition → ℕ → (ℕ → ℕ → Run (Option (Bool × ℕ))) → Bool × ℕ → Run (Option (Bool × ℕ))
after_match rep match_count again (false, offset) =
    done (some (repetition_satisfied rep match_count, offset))
after_match rep match_count again (true, offset) =
    let count = (match_count + 1) % 2 ^ 64 in
    if should_repeat rep count
    then again count offset
    else done (some (repetition_satisfied rep count, offset))

-- The loop of `state::match`. Without fuel it has not ended.
pub state_loop : ℕ → State → List ℕ → ℕ → ℕ → Run (Option (Bool × ℕ))
state_loop zero state str match_count offset = done none
state_loop (suc fuel) state str match_count offset =
    match_impl state.impl str offset
    >>= after_match state.rep match_count (state_loop fuel state str)

pub state_match : ℕ → State → List ℕ → ℕ → Run (Option (Bool × ℕ))
unfolding state_loop
state_match fuel state str offset = state_loop fuel state str 0 offset

-- `expr::match`, whose loop goes over the states up to the end of the input.
pub expr_match : ℕ → List State → List ℕ → ℕ → Run (Option Bool)
unfolding state_match
expr_match fuel [] input offset = done (some true)
expr_match fuel (state ∷ states) input offset =
    let rest = state_match fuel state input offset >>? λ r.
    if r.0 then expr_match fuel states input r.1 else done (some false) in
    if ltb offset (length input) then rest else done (some false)
