-- ===== src/Url/Parser/Loop.antt =====
-- The loop of the parser of src/url.cpp, and `url::parse`.

use cppnet.Prelude.{
  List, Option, [], codes, if◌then◌else◌, length, ltb, none, some, suc, zero, ℕ, ◌+◌, ◌∷◌,
}
use cppnet.Prelude.Memory.{◌>>?◌, ◌>>=◌, Run, done}
use cppnet.Url.Percent.{decode}
use cppnet.Url.Parser.{
  State, scheme_state, authority_state, userinfo_state, host_state, port_state, path_state,
  query_state, fragment_state, done_state, Url, empty_url, Parser, sub_from, parse_scheme,
  parse_authority, parse_userinfo, parse_part,
}
use cppnet.Url.Parser.Query.{parse_query}

module _ (input : List ℕ) where
  unfoldable pub parse_fragment : Parser → Run Parser
  parse_fragment p = do
    text ← sub_from input p.start
    done (record p { out = record p.out { fragment = text }; state = done_state })

  abbrev pub ended : Run Parser → Run (Option Parser)
  ended r = r >>= λ p. done (some p)

  -- The switch in the loop of `parse`.
  unfoldable pub parse_case : State → Parser → Run (Option Parser)
  unfolding parse_scheme parse_authority parse_userinfo parse_part parse_query parse_fragment
  parse_case scheme_state p = ended (parse_scheme input p)
  parse_case authority_state p = ended (parse_authority input p)
  parse_case userinfo_state p = ended (parse_userinfo input p)
  parse_case host_state p =
      ended (parse_part input (codes ":/?#") (λ t. record p.out { host = t }) p)
  parse_case port_state p =
      ended (parse_part input (codes "/?#") (λ t. record p.out { port = t }) p)
  parse_case path_state p = ended (parse_part input (codes "?#") (λ t. record p.out { path = t }) p)
  parse_case query_state p = parse_query input p
  parse_case fragment_state p = ended (parse_fragment p)
  parse_case done_state p = done (some (record p { end = length input }))

  -- The loop of `parse`.
  unfoldable pub parse_loop : ℕ → Parser → Run (Option Parser)
  unfolding parse_case
  parse_loop zero p = if ltb p.end (length input) then done none else done (some p)
  parse_loop (suc fuel) p =
      if ltb p.end (length input)
      then (parse_case p.state p >>? λ p'. parse_loop fuel p')
      else done (some p)

-- A part of the url, decoded unless it is empty.
abbrev pub decode_part : List ℕ → Run (Option (List ℕ))
decode_part [] = done (some [])
decode_part (c ∷ cs) = decode (c ∷ cs)

unfoldable pub decode_parts : Url → Run (Option Url)
decode_parts u = decode_part u.scheme >>? λ scheme. decode_part u.username >>? λ username.
    decode_part u.password >>? λ password. decode_part u.host >>? λ host.
    decode_part u.port >>? λ port. decode_part u.path >>? λ path.
    decode_part u.fragment >>? λ fragment. done (
      some (record {
        scheme = scheme;
        username = username;
        password = password;
        host = host;
        port = port;
        path = path;
        query = u.query;
        fragment = fragment;
      }))

-- `parse_result`: the url, or the state and the index where the parser failed.
pub data ParseResult : Type 0 where
  parsed : Url → ParseResult
  failed_at : State → ℕ → ParseResult

abbrev pub result_of : Parser → Url → ParseResult
result_of p u = elim p.state [ done_state ↦ parsed u | s ↦ failed_at s p.end ]

-- `url::parse`
unfoldable pub parse : List ℕ → Run (Option ParseResult)
unfolding parse_loop decode_parts
parse input =
    parse_loop input (length input + 10)
      (record { out = empty_url; state = scheme_state; start = 0; end = 0 })
    >>? λ p. decode_parts p.out >>? λ u. done (some (result_of p u))
