-- ===== src/Url/Parser/Ends.antt =====
-- `url::parse` ends on every input.

use cppnet.Prelude.{
  Bool-cases, List, Option, Option-cases, [], arith, codes, drop, inl, inr, length, length-drop,
  ltb, refl, some, suc, take, zero, ℕ, ◌+◌, ◌<◌, ◌==◌, ◌∷◌, ◌≡◌, ◌≤◌, ◌⊎◌, leb, none, ◌-◌,
}
use cppnet.Prelude.Memory.{◌>>?◌, Run, done, fault}
use cppnet.Prelude.Strings.{position, find_from}
use cppnet.Url.Percent.Ends.{Ends, decode-Ends}
use cppnet.Url.Percent.{decode}
use cppnet.Url.Parser.{
  Url, empty_url, scheme_state, parse_scheme, parse_authority, parse_userinfo, parse_part, State,
  authority_state, userinfo_state, host_state, port_state, path_state, query_state, fragment_state,
  done_state, Parser,
}
use cppnet.Url.Parser.Query.{parse_query_to, query_round, query_loop, parse_query, add_values}
use cppnet.Url.Parser.Loop.{
  result_of, decode_part, decode_parts, parse, parse_case, parse_fragment, ended, parse_loop,
}
use cppnet.Url.Parser.Rank.{rank, host-Starts, port-Starts, path-Starts}
use cppnet.Url.Parser.Terminate.{
  rounds, Lower, parse_scheme-Lower, parse_authority-Lower, parse_userinfo-Lower, parse_part-Lower,
  parse_fragment_lem,
}

>>?-Ends {ℓ κ} :
    {A : Type ℓ} {B : Type κ} (m : Run (Option A)) (f : A → Run (Option B))
    → Ends m
    → ((a : A) → Ends (f a))
    → Ends (m >>? f)
>>?-Ends m f (inl bad) hf = inl (rw bad refl)
>>?-Ends m f (inr (a, good)) hf = rw good (hf a)

query_round-Ends :
    (kv : List ℕ) (entries : List (List ℕ × List (List ℕ))) → Ends (query_round kv entries)
unfolding query_round
query_round-Ends kv entries = elim (Option-cases (position (λ c. c == b'=') kv)) [
  | inl e ↦
      rw (e, query_round)
        (>>?-Ends (decode kv) (λ key. done (some (add_values key [] entries))) (decode-Ends kv)
          (λ key. inr (add_values key [] entries, refl)))
  | inr (eq_idx, e) ↦
      rw (e, query_round)
        (>>?-Ends (decode (take eq_idx kv))
          (λ key. decode (drop (eq_idx + 1) kv) >>? λ val.
            done (some (add_values key (val ∷ []) entries)))
          (decode-Ends (take eq_idx kv))
          (λ key.
            >>?-Ends (decode (drop (eq_idx + 1) kv))
              (λ val. done (some (add_values key (val ∷ []) entries)))
              (decode-Ends (drop (eq_idx + 1) kv))
              (λ val. inr (add_values key (val ∷ []) entries, refl))))
]

query_loop-Ends :
    (fuel : ℕ) (raw : List ℕ) (entries : List (List ℕ × List (List ℕ)))
    → length raw ≤ fuel
    → Ends (query_loop fuel raw entries)
unfolding query_loop
query_loop-Ends zero [] entries hf = inr (entries, refl)
query_loop-Ends (suc fuel) [] entries hf = inr (entries, refl)
query_loop-Ends zero (c ∷ raw) entries hf = absurd (omega arith)
query_loop-Ends (suc fuel) (c ∷ raw) entries hf =
    elim (Option-cases (position (λ x. x == b'&') (c ∷ raw))) [
      | inl e ↦ rw (e, query_loop) (query_round-Ends (c ∷ raw) entries)
      | inr (next, e) ↦
          rw (e, query_loop)
            (>>?-Ends (query_round (take next (c ∷ raw)) entries)
              (λ entries'. query_loop fuel (drop (next + 1) (c ∷ raw)) entries')
              (query_round-Ends (take next (c ∷ raw)) entries)
              (λ entries'.
                query_loop-Ends fuel (drop (next + 1) (c ∷ raw)) entries'
                  (omega (arith, length-drop (next + 1) (c ∷ raw)))))
    ]

rank-pos : (s : State) (left : ℕ) → 0 < left → 0 < rank s left
rank-pos scheme_state left h = omega arith
rank-pos authority_state left h = omega arith
rank-pos userinfo_state left h = omega arith
rank-pos host_state left h = omega arith
rank-pos port_state left h = omega arith
rank-pos path_state left h = omega arith
rank-pos query_state left h = omega arith
rank-pos fragment_state left h = omega arith
rank-pos done_state left h = omega arith

module _ (input : List ℕ) where
  abbrev Closer : ℕ → Run (Option Parser) → Type 0
  Closer k r = (r ≡ fault) ⊎ ((p : Parser) × (r ≡ done (some p)) × (rounds input p < k))

  ended-Closer : (k : ℕ) (r : Run Parser) → Lower input k r → Closer k (ended input r)
  ended-Closer k r (inl bad) = inl (rw bad refl)
  ended-Closer k r (inr (p, good, h)) = inr (p, rw good refl, h)

  parse_query_to-Closer : (o : Option ℕ) (p : Parser) → Closer 3 (parse_query_to input o p)
  unfolding parse_query_to
  parse_query_to-Closer none p =
      let raw = drop p.start input in
      elim (query_loop-Ends (length raw) raw p.out.query (omega arith)) [
        | inl bad ↦ inl (rw bad refl)
        | inr (entries, good) ↦ inr (
          record p {
            out = record p.out { query = entries };
            state = done_state;
            end = length input;
          },
          rw good refl,
          omega arith,
        )
      ]
  parse_query_to-Closer (some idx) p =
      let raw = take (idx - p.start) (drop p.start input) in
      elim (query_loop-Ends (length raw) raw p.out.query (omega arith)) [
        | inl bad ↦ inl (rw bad refl)
        | inr (entries, good) ↦ inr (
          record {
            out = record p.out { query = entries };
            state = fragment_state;
            start = idx + 1;
            end = idx + 1;
          },
          rw good refl,
          omega arith,
        )
      ]

  parse_query-Closer : (p : Parser) → Closer 3 (parse_query input p)
  unfolding parse_query
  parse_query-Closer p = elim (Bool-cases (leb p.start (length input))) [
    | inl e ↦ rw e (parse_query_to-Closer (find_from (λ c. c == b'#') input p.start) p)
    | inr e ↦ inl (rw e refl)
  ]

  parse_case-Closer :
      (s : State) (p : Parser)
      → p.state ≡ s
      → p.end < length input
      → Closer (rank s (length input - p.end)) (parse_case input s p)
  unfolding parse_case
  parse_case-Closer scheme_state p hs he =
      ended-Closer _ (parse_scheme input p) (parse_scheme-Lower input p hs he)
  parse_case-Closer authority_state p hs he =
      ended-Closer _ (parse_authority input p) (parse_authority-Lower input p)
  parse_case-Closer userinfo_state p hs he =
      ended-Closer _ (parse_userinfo input p) (parse_userinfo-Lower input p)
  parse_case-Closer host_state p hs he =
      let put : List ℕ → Url = λ t. record p.out { host = t } in
      ended-Closer 6 (parse_part input (codes ":/?#") put p)
        (parse_part-Lower input 6 (codes ":/?#") put p (omega arith) host-Starts)
  parse_case-Closer port_state p hs he =
      let put : List ℕ → Url = λ t. record p.out { port = t } in
      ended-Closer 5 (parse_part input (codes "/?#") put p)
        (parse_part-Lower input 5 (codes "/?#") put p (omega arith) port-Starts)
  parse_case-Closer path_state p hs he =
      let put : List ℕ → Url = λ t. record p.out { path = t } in
      ended-Closer 4 (parse_part input (codes "?#") put p)
        (parse_part-Lower input 4 (codes "?#") put p (omega arith) path-Starts)
  parse_case-Closer query_state p hs he = parse_query-Closer p
  parse_case-Closer fragment_state p hs he =
      ended-Closer _ (parse_fragment input p) (parse_fragment_lem input p)
  parse_case-Closer done_state p hs he =
      inr (record p { end = length input }, refl, rw hs (omega arith))

  parse_loop-Ends : (fuel : ℕ) (p : Parser) → rounds input p ≤ fuel → Ends (parse_loop input fuel p)
  unfolding parse_loop
  parse_loop-Ends zero p hf = elim (Bool-cases (ltb p.end (length input))) [
    | inr e ↦ rw e (inr (p, refl))
    | inl e ↦
        let left : 0 < length input - p.end = ground (arith, e) in
        absurd (omega (arith, rank-pos p.state (length input - p.end) left))
  ]
  parse_loop-Ends (suc fuel) p hf = elim (Bool-cases (ltb p.end (length input))) [
    | inr e ↦ rw e (inr (p, refl))
    | inl e ↦ elim (parse_case-Closer p.state p refl (ground (arith, e))) [
      | inl bad ↦ rw (e, bad) (inl refl)
      | inr (p', good, h) ↦ rw (e, good) (parse_loop-Ends fuel p' (omega arith))
    ]
  ]

decode_part-Ends : (text : List ℕ) → Ends (decode_part text)
decode_part-Ends [] = inr ([], refl)
decode_part-Ends (c ∷ cs) = decode-Ends (c ∷ cs)

decode_parts-Ends : (u : Url) → Ends (decode_parts u)
unfolding decode_parts
decode_parts-Ends u = >>?-Ends (decode_part u.scheme) _ (decode_part-Ends u.scheme) (λ a.
    >>?-Ends (decode_part u.username) _ (decode_part-Ends u.username) (λ b.
      >>?-Ends (decode_part u.password) _ (decode_part-Ends u.password) (λ c.
        >>?-Ends (decode_part u.host) _ (decode_part-Ends u.host) (λ d.
          >>?-Ends (decode_part u.port) _ (decode_part-Ends u.port) (λ e.
            >>?-Ends (decode_part u.path) _ (decode_part-Ends u.path) (λ f.
              >>?-Ends (decode_part u.fragment) _ (decode_part-Ends u.fragment) (λ g. inr (
                record {
                  scheme = a;
                  username = b;
                  password = c;
                  host = d;
                  port = e;
                  path = f;
                  query = u.query;
                  fragment = g;
                },
                refl,
              ))))))))

-- On every input the loops of `parse`, that of the parser with ten rounds more than the input has
-- chars, and those of the query and of `decode` end: `parse` gives a result, or it faults.
pub parse-Ends : (input : List ℕ) → Ends (parse input)
unfolding parse
parse-Ends input =
    let first : Parser = record { out = empty_url; state = scheme_state; start = 0; end = 0 } in
    >>?-Ends (parse_loop input (length input + 10) first) _
      (parse_loop-Ends input (length input + 10) first (omega arith))
      (λ p.
        >>?-Ends (decode_parts p.out) _ (decode_parts-Ends p.out) (λ u. inr (result_of p u, refl)))
