-- ===== src/Url/Parser/Result.antt =====
-- `url::parse` gives a result for texts without percent signs.

use cppnet.Prelude.{
  Bool-cases, List, Option, ◌≡◌, ◌≤◌, ◌<◌, ◌+◌, ◌-◌, ◌==◌, ◌⊎◌, arith, codes, inl, inr, refl,
  length, ltb, take, drop, zero, suc, none, some, ℕ,
}
use cppnet.Prelude.Memory.{Run, done, ◌>>?◌}
use cppnet.Prelude.Strings.{Misses, find_from}
use cppnet.Url.Parser.{
  Url, empty_url, Parser, State, scheme_state, authority_state, userinfo_state, host_state,
  port_state, path_state, query_state, fragment_state, done_state, parse_scheme, parse_authority,
  parse_userinfo,
}
use cppnet.Url.Parser.Query.{parse_query, parse_query_to}
use cppnet.Url.Parser.Loop.{
  parse, parse_case, parse_loop, parse_fragment, result_of, ParseResult, ended,
}
use cppnet.Url.Parser.Rank.{host-Starts, port-Starts, path-Starts}
use cppnet.Url.Parser.Plain.{
  Plain, Plain-drop, Plain-cut, IsPlain, IsPlain-host, IsPlain-port, IsPlain-path,
  decode_parts-IsPlain, query_loop-Plain,
}
use cppnet.Url.Parser.Ends.{parse-Ends}
use cppnet.Url.Parser.Placed.{
  At, IsPlaced, Placed, within, find_from-inside, parse_scheme-Placed, parse_authority-Placed,
  parse_userinfo-Placed, parse_part-Placed, parse_fragment-Placed,
}

module _ (input : List ℕ) (plain : Plain input) where
  -- A run that does not fault, and what holds of its result.
  abbrev PlacedIf : Run (Option Parser) → Type 0
  PlacedIf r = (r ≡ done none) ⊎ ((p : Parser) × (r ≡ done (some p)) × IsPlaced input plain p)

  ended-PlacedIf : (r : Run Parser) → Placed input plain r → PlacedIf (ended input r)
  ended-PlacedIf r (p, e, h) = inr (p, rw e refl, h)

  IsPlain-query :
      (u : Url) (q : List (List ℕ × List (List ℕ))) → IsPlain u → IsPlain (record u { query = q })
  IsPlain-query u q h = record {
    scheme = h.scheme;
    username = h.username;
    password = h.password;
    host = h.host;
    port = h.port;
    path = h.path;
    fragment = h.fragment;
  }

  abbrev Query : Type 0
  Query = List (List ℕ × List (List ℕ))

  query-PlacedIf :
      (m : Run (Option Query)) (o : Option Query) (f : Query → Parser)
      → m ≡ done o
      → ((q : Query) → IsPlaced input plain (f q))
      → PlacedIf (m >>? λ q. done (some (f q)))
  query-PlacedIf m none f e h = inl (rw e refl)
  query-PlacedIf m (some q) f e h = inr (f q, rw e refl, h q)

  parse_query_to-PlacedIf :
      (o : Option ℕ) (p : Parser)
      → find_from (λ c. c == b'#') input p.start ≡ o
      → p.start ≤ length input
      → IsPlain p.out
      → PlacedIf (parse_query_to input o p)
  unfolding parse_query_to
  parse_query_to-PlacedIf none p e h0 parts =
      let raw = drop p.start input in
      let r = query_loop-Plain (length raw) raw p.out.query (Plain-drop p.start input plain) in
      query-PlacedIf _ r.0 _ r.1 (λ q. record { at = h0; parts = IsPlain-query p.out q parts })
  parse_query_to-PlacedIf (some idx) p e h0 parts =
      let raw = take (idx - p.start) (drop p.start input) in
      let r =
        query_loop-Plain (length raw) raw p.out.query
          (Plain-cut (idx - p.start) p.start input plain) in
      query-PlacedIf _ r.0 _ r.1 (λ q. record {
        at = find_from-inside input plain (λ c. c == b'#') p.start idx e;
        parts = IsPlain-query p.out q parts;
      })

  parse_query-PlacedIf :
      (p : Parser) → p.start ≤ length input → IsPlain p.out → PlacedIf (parse_query input p)
  unfolding parse_query
  parse_query-PlacedIf p h0 parts =
      rw (within input plain p.start h0)
        (parse_query_to-PlacedIf (find_from (λ c. c == b'#') input p.start) p refl h0 parts)

  parse_case-PlacedIf :
      (s : State) (p : Parser)
      → p.state ≡ s
      → p.end < length input
      → At (length input) s p.start p.end
      → IsPlain p.out
      → PlacedIf (parse_case input s p)
  unfolding parse_case
  parse_case-PlacedIf scheme_state p hs he h0 parts =
      ended-PlacedIf (parse_scheme input p) (parse_scheme-Placed input plain p h0 hs he parts)
  parse_case-PlacedIf authority_state p hs he h0 parts =
      ended-PlacedIf (parse_authority input p) (parse_authority-Placed input plain p h0 he parts)
  parse_case-PlacedIf userinfo_state p hs he h0 parts =
      ended-PlacedIf (parse_userinfo input p) (parse_userinfo-Placed input plain p h0 parts)
  parse_case-PlacedIf host_state p hs he h0 parts = ended-PlacedIf _ (
      parse_part-Placed input plain 6 (codes ":/?#") (λ t. record p.out { host = t }) p
        (omega arith) h0 (IsPlain-host p.out parts) host-Starts)
  parse_case-PlacedIf port_state p hs he h0 parts = ended-PlacedIf _ (
      parse_part-Placed input plain 5 (codes "/?#") (λ t. record p.out { port = t }) p (omega arith)
        h0 (IsPlain-port p.out parts) port-Starts)
  parse_case-PlacedIf path_state p hs he h0 parts = ended-PlacedIf _ (
      parse_part-Placed input plain 4 (codes "?#") (λ t. record p.out { path = t }) p (omega arith)
        h0 (IsPlain-path p.out parts) path-Starts)
  parse_case-PlacedIf query_state p hs he h0 parts = parse_query-PlacedIf p h0 parts
  parse_case-PlacedIf fragment_state p hs he h0 parts =
      ended-PlacedIf (parse_fragment input p) (parse_fragment-Placed input plain p h0 parts)
  parse_case-PlacedIf done_state p hs he h0 parts =
      inr (record p { end = length input }, refl, record { at = rw hs h0; parts = parts })

  parse_loop-PlacedIf :
      (fuel : ℕ) (p : Parser) → IsPlaced input plain p → PlacedIf (parse_loop input fuel p)
  unfolding parse_loop
  parse_loop-PlacedIf zero p h = elim (Bool-cases (ltb p.end (length input))) [
    | inr e ↦ rw e (inr (p, refl, h))
    | inl e ↦ rw e (inl refl)
  ]
  parse_loop-PlacedIf (suc fuel) p h = elim (Bool-cases (ltb p.end (length input))) [
    | inr e ↦ rw e (inr (p, refl, h))
    | inl e ↦ elim (parse_case-PlacedIf p.state p refl (ground (arith, e)) h.at h.parts) [
      | inl bad ↦ rw (e, bad) (inl refl)
      | inr (p', good, h') ↦ rw (e, good) (parse_loop-PlacedIf fuel p' h')
    ]
  ]

  parse-some : (parse input ≡ done none) ⊎ ((r : ParseResult) × (parse input ≡ done (some r)))
  unfolding parse
  parse-some =
      let first : Parser = record { out = empty_url; state = scheme_state; start = 0; end = 0 } in
      let placed : IsPlaced input plain first = record {
        at = refl;
        parts = record {
          scheme = tt;
          username = tt;
          password = tt;
          host = tt;
          port = tt;
          path = tt;
          fragment = tt;
        };
      } in
      elim (parse_loop-PlacedIf (length input + 10) first placed) [
        | inl e ↦ inl (rw e refl)
        | inr (p, e, h) ↦ inr (result_of p p.out, rw (e, decode_parts-IsPlain p.out h.parts) refl)
      ]

-- For a text without percent signs, `parse` gives a result: its loops end, and no `substr` and no
-- read is out of range.
pub parse-result :
    (input : List ℕ)
    → Misses (λ c. c == b'%') input
    → (r : ParseResult) × (parse input ≡ done (some r))
parse-result input plain = elim (parse-some input plain) [
  | inr r ↦ r
  | inl out ↦ elim (parse-Ends input) [ inr r ↦ r | inl bad ↦ absurd (cc (out, bad)) ]
]
