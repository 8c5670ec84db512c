-- ===== src/Url/Parser.antt =====
-- The parser of src/url.cpp: its state, and its steps up to the path.
pub mod Query
pub mod Loop
pub mod Rank
pub mod Terminate
pub mod Ends
pub mod Plain
pub mod Placed
pub mod Result
use cppnet.Prelude.{
  List, Option, [], drop, if◌then◌else◌, leb, length, ltb, none, not, some, take, ℕ, ◌&&◌, ◌+◌, ◌-◌,
  ◌==◌, ◌∷◌,
}
use cppnet.Prelude.Memory.{◌>>=◌, read, Run, done, fault}
use cppnet.Prelude.Strings.{position, find_from, one_of, starts_with}

-- The enum `url_parse_state`.
pub data State : Type 0 where
  scheme_state : State
  authority_state : State
  userinfo_state : State
  host_state : State
  port_state : State
  path_state : State
  query_state : State
  fragment_state : State
  done_state : State

-- The class `url`. `query` is an unordered map, here the list of its entries.
pub record Url : Type 0 where
  pub scheme : List ℕ
  pub username : List ℕ
  pub password : List ℕ
  pub host : List ℕ
  pub port : List ℕ
  pub path : List ℕ
  pub query : List (List ℕ × List (List ℕ))
  pub fragment : List ℕ

abbrev pub empty_url : Url
empty_url = record {
  scheme = [];
  username = [];
  password = [];
  host = [];
  port = [];
  path = [];
  query = [];
  fragment = [];
}

-- The struct `url_parser`, without its input.
pub record Parser : Type 0 where
  pub out : Url
  pub state : State
  pub start : ℕ
  pub end : ℕ

-- `input.substr(i, n)` and `input.substr(i)`, which throw where `i` is behind the end.
abbrev pub sub : List ℕ → ℕ → ℕ → Run (List ℕ)
sub input i n = if leb i (length input) then done (take n (drop i input)) else fault

abbrev pub sub_from : List ℕ → ℕ → Run (List ℕ)
sub_from input i = if leb i (length input) then done (drop i input) else fault

-- What a part of the url ends in: the state for the char behind it, if it starts a new part.
abbrev pub next_state : ℕ → Option State
next_state c =
    if c == b':'
    then some port_state
    else if c == b'/'
    then some path_state
    else if c == b'?'
    then some query_state
    else if c == b'#'
    then some fragment_state
    else none

module _ (input : List ℕ) where
  pub parse_scheme : Parser → Run Parser
  parse_scheme p = do
    c ← read input p.end
    if not (c == b':')
        then (if p.end + 1 == length input
            then (let next =
                  if starts_with input (b'/' ∷ b'/' ∷ [])
                  then authority_state
                  else if starts_with input (b'/' ∷ [])
                  then path_state
                  else host_state in
                done (record p { state = next; end = 0 }))
            else done (record p { end = p.end + 1 }))
        else (do
          text ← sub input p.start (p.end - p.start)
          done (record p {
            out = record p.out { scheme = text };
            state = authority_state;
            start = p.end + 1;
            end = p.end + 1;
          }))

  pub parse_authority : Parser → Run Parser
  parse_authority p =
      let end' = p.end + 1 in
      if ltb end' (length input)
      then (do
        a ← read input p.start
        b ← read input end'
        if a == b'/' && b == b'/'
            then done (record p { state = userinfo_state; start = end' + 1; end = end' + 1 })
            else done (record p { state = path_state; end = p.start }))
      else done (record p { state = path_state; end = p.start })

  pub parse_userinfo : Parser → Run Parser
  parse_userinfo p = elim (find_from (λ c. c == b'@') input p.start) [
    | none ↦ done (record p { state = host_state })
    | some idx ↦ (do
      userinfo ← sub input p.start (idx - p.start)
      out ← elim (position (λ c. c == b':') userinfo) [
        | some split ↦ done (record p.out {
          username = take split userinfo;
          password = take (idx - (split + 1)) (drop (split + 1) userinfo);
        })
        | none ↦ done (record p.out { username = userinfo })
      ]
      done (record p { out = out; state = host_state; start = idx + 1; end = idx + 1 }))
  ]

  -- The common part of `parse_host`, `parse_port` and `parse_path`: up to the first of `seps`, or
  -- the end, the text is one part of the url. A path includes its slash.
  pub parse_part : List ℕ → (List ℕ → Url) → Parser → Run Parser
  parse_part seps put p = elim (find_from (one_of seps) input p.start) [
    | none ↦ (do
      text ← sub_from input p.start
      done (record p { out = put text; state = done_state; end = length input }))
    | some idx ↦ (do
      text ← sub input p.start (idx - p.start)
      c ← read input idx
      let at = if c == b'/' then idx else idx + 1
      done (record {
        out = put text;
        state = elim (next_state c) [ none ↦ p.state | some s ↦ s ];
        start = at;
        end = at;
      }))
  ]
