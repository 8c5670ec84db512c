-- ===== src/Url/Parser/Terminate.antt =====
-- Each round of the parser's loop but the last ones comes closer to the end: the state goes up, and
-- in the first state the index does.

use cppnet.Prelude.Strings.{one_of, starts_with, position, find_from}
use cppnet.Prelude.{
  Bool-cases, List, arith, inl, inr, length, refl, ℕ, ◌+◌, ◌-◌, ◌<◌, ◌==◌, ◌≡◌, ◌⊎◌, [],
  if◌then◌else◌, ltb, true, ◌&&◌, ◌∷◌, ◌≤◌, Option-cases, drop, take,
}
use cppnet.Prelude.Memory.{read_total, Run, done, fault, read}
use cppnet.Url.Percent.Ends.{Run-cases}
use cppnet.Url.Parser.Loop.{parse_fragment}
use cppnet.Url.Parser.{
  parse_authority, parse_userinfo, parse_part, sub_from, State, scheme_state, authority_state,
  userinfo_state, host_state, path_state, done_state, Parser, sub, parse_scheme, Url,
}
use cppnet.Url.Parser.Rank.{rank, no_scheme-rank, Starts, find_from-read}

module _ (input : List ℕ) where
  -- How many rounds are left at most.
  abbrev pub rounds : Parser → ℕ
  rounds p = rank p.state (length input - p.end)

  abbrev pub Lower : ℕ → Run Parser → Type 0
  Lower k r = (r ≡ fault) ⊎ ((p : Parser) × (r ≡ done p) × (rounds p < k))

  pub parse_scheme-Lower :
      (p : Parser)
      → p.state ≡ scheme_state
      → p.end < length input
      → Lower (8 + (length input - p.end)) (parse_scheme input p)
  unfolding parse_scheme
  parse_scheme-Lower p hs he =
      let (c, hc) = read_total input p.end he in
      elim (Bool-cases (c == b':')) [
        | inl e ↦ elim (Run-cases (sub input p.start (p.end - p.start))) [
          | inl bad ↦ inl (rw (hc, e, bad) refl)
          | inr (text, good) ↦ inr (
            record p {
              out = record p.out { scheme = text };
              state = authority_state;
              start = p.end + 1;
              end = p.end + 1;
            },
            rw (hc, e, good) refl,
            omega arith,
          )
        ]
        | inr e ↦ elim (Bool-cases (p.end + 1 == length input)) [
          | inr h ↦ inr (record p { end = p.end + 1 }, rw (hc, e, h) refl, rw hs (omega arith))
          | inl h ↦
              let a = starts_with input (b'/' ∷ b'/' ∷ []) in
              let b = starts_with input (b'/' ∷ []) in
              let next : State =
                if a then authority_state else if b then path_state else host_state in
              let low : rounds (record p { state = next; end = 0 }) ≤ 8 =
                no_scheme-rank a b (length input - 0) in
              inr (record p { state = next; end = 0 }, rw (hc, e, h) refl, omega (arith, low))
        ]
      ]

  pub parse_authority-Lower : (p : Parser) → Lower 8 (parse_authority input p)
  unfolding parse_authority
  parse_authority-Lower p = elim (Bool-cases (ltb (p.end + 1) (length input))) [
    | inr e ↦ inr (record p { state = path_state; end = p.start }, rw e refl, omega arith)
    | inl e ↦ elim (Run-cases (read input p.start)) [
      | inl bad ↦ inl (rw (e, bad) refl)
      | inr (a, ha) ↦ elim (Run-cases (read input (p.end + 1))) [
        | inl bad ↦ inl (rw (e, ha, bad) refl)
        | inr (b, hb) ↦ elim (Bool-cases ((a == b'/') && (b == b'/'))) [
          | inl t ↦ inr (
            record p { state = userinfo_state; start = p.end + 1 + 1; end = p.end + 1 + 1 },
            rw (e, ha, hb, t) refl,
            omega arith,
          )
          | inr t ↦
              inr (
                record p { state = path_state; end = p.start },
                rw (e, ha, hb, t) refl,
                omega arith,
              )
        ]
      ]
    ]
  ]

  pub parse_userinfo-Lower : (p : Parser) → Lower 7 (parse_userinfo input p)
  unfolding parse_userinfo
  parse_userinfo-Lower p = elim (Option-cases (find_from (λ c. c == b'@') input p.start)) [
    | inl e ↦ inr (record p { state = host_state }, rw (e, parse_userinfo) refl, omega arith)
    | inr (idx, e) ↦ elim (Run-cases (sub input p.start (idx - p.start))) [
      | inl bad ↦ inl (rw (e, parse_userinfo, bad) refl)
      | inr (userinfo, good) ↦ elim (Option-cases (position (λ c. c == b':') userinfo)) [
        | inl h ↦ inr (
          record {
            out = record p.out { username = userinfo };
            state = host_state;
            start = idx + 1;
            end = idx + 1;
          },
          rw (e, parse_userinfo, good, h) refl,
          omega arith,
        )
        | inr (split, h) ↦ inr (
          record {
            out = record p.out {
              username = take split userinfo;
              password = take (idx - (split + 1)) (drop (split + 1) userinfo);
            };
            state = host_state;
            start = idx + 1;
            end = idx + 1;
          },
          rw (e, parse_userinfo, good, h) refl,
          omega arith,
        )
      ]
    ]
  ]

  -- The char that the search finds starts a part of lower rank.
  pub parse_part-Lower :
      (k : ℕ) (seps : List ℕ) (put : List ℕ → Url) (p : Parser)
      → 1 < k
      → ((c : ℕ) → one_of seps c ≡ true → Starts k c)
      → Lower k (parse_part input seps put p)
  unfolding parse_part
  parse_part-Lower k seps put p hk hs =
      elim (Option-cases (find_from (one_of seps) input p.start)) [
        | inl e ↦ elim (Run-cases (sub_from input p.start)) [
          | inl bad ↦ inl (rw (e, parse_part, bad) refl)
          | inr (text, good) ↦ inr (
            record p { out = put text; state = done_state; end = length input },
            rw (e, parse_part, good) refl,
            omega (arith, hk),
          )
        ]
        | inr (idx, e) ↦
            let (c, hc, ht) = find_from-read (one_of seps) input p.start idx e in
            let (s, hn, hr) = hs c ht in
            let at = if c == b'/' then idx else idx + 1 in
            elim (Run-cases (sub input p.start (idx - p.start))) [
              | inl bad ↦ inl (rw (e, parse_part, bad) refl)
              | inr (text, good) ↦ inr (
                record { out = put text; state = s; start = at; end = at },
                rw (e, parse_part, good, hc, hn) refl,
                hr (length input - at),
              )
            ]
      ]

  pub parse_fragment_lem : (p : Parser) → Lower 2 (parse_fragment input p)
  unfolding parse_fragment
  parse_fragment_lem p = elim (Run-cases (sub_from input p.start)) [
    | inl bad ↦ inl (rw bad refl)
    | inr (text, good) ↦ inr (
      record p { out = record p.out { fragment = text }; state = done_state },
      rw good refl,
      omega arith,
    )
  ]
