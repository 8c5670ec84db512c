-- ===== src/Url/Parser/Placed.antt =====
-- On texts without percent signs no `substr` and no read of the parser of src/url.cpp is out of range.

use cppnet.Prelude.{
  Bool, Bool-cases, List, Option-cases, [], ◌∷◌, ◌≡◌, ◌≤◌, ◌<◌, ◌+◌, ◌-◌, ◌==◌, ◌&&◌, arith, inl,
  inr, refl, length, leb, ltb, take, drop, zero, suc, some, true, false, ℕ, if◌then◌else◌,
}
use cppnet.Prelude.Memory.{Run, done, read, read_total}
use cppnet.Prelude.Strings.{position, find_from, one_of, starts_with}
use cppnet.Url.Parser.{
  Url, Parser, State, sub, sub_from, scheme_state, authority_state, userinfo_state, host_state,
  port_state, path_state, query_state, fragment_state, done_state, parse_scheme, parse_authority,
  parse_userinfo, parse_part,
}
use cppnet.Url.Parser.Loop.{parse_fragment}
use cppnet.Url.Parser.Rank.{rank, Starts, find_from-read}
use cppnet.Url.Parser.Plain.{
  Plain, Plain-take, Plain-drop, Plain-cut, IsPlain, IsPlain-scheme, IsPlain-username,
  IsPlain-fragment, IsPlain-names,
}

-- Where the indices stand in each state, for an input of some length.
abbrev pub At : ℕ → State → ℕ → ℕ → Type 0
At size scheme_state start end = start ≡ 0
At size authority_state start end = start ≤ end
At size userinfo_state start end = start ≤ size
At size host_state start end = start ≤ size
At size port_state start end = start ≤ size
At size path_state start end = start ≤ size
At size query_state start end = start ≤ size
At size fragment_state start end = start ≤ size
At size done_state start end = start ≤ size

At-low : (size x : ℕ) (s : State) → rank s 0 < 7 → x ≤ size → At size s x x
At-low size x scheme_state h k = absurd (omega arith)
At-low size x authority_state h k = absurd (omega arith)
At-low size x userinfo_state h k = k
At-low size x host_state h k = k
At-low size x port_state h k = k
At-low size x path_state h k = k
At-low size x query_state h k = k
At-low size x fragment_state h k = k
At-low size x done_state h k = k

At-no_scheme :
    (size : ℕ) (a b : Bool)
    → At size (if a then authority_state else if b then path_state else host_state) 0 0
At-no_scheme size true b = omega arith
At-no_scheme size false true = omega arith
At-no_scheme size false false = omega arith

read_inside : (xs : List ℕ) (i c : ℕ) → read xs i ≡ done c → i < length xs
read_inside [] i c h = absurd (cc (h))
read_inside (x ∷ xs) zero c h = omega arith
read_inside (x ∷ xs) (suc i) c h = let r = read_inside xs i c h in omega (arith, r)

module _ (input : List ℕ) (plain : Plain input) where
  pub record IsPlaced (p : Parser) : Type 0 where
    pub at : At (length input) p.state p.start p.end
    pub parts : IsPlain p.out

  abbrev pub Placed : Run Parser → Type 0
  Placed r = (p : Parser) × (r ≡ done p) × IsPlaced p

  pub within : (i : ℕ) → i ≤ length input → leb i (length input) ≡ true
  within i h = ground (arith, h)

  sub-Plain : (i n : ℕ) → i ≤ length input → (t : List ℕ) × (sub input i n ≡ done t) × Plain t
  sub-Plain i n h = (take n (drop i input), rw (within i h) refl, Plain-cut n i input plain)

  sub_from-Plain : (i : ℕ) → i ≤ length input → (t : List ℕ) × (sub_from input i ≡ done t) × Plain t
  sub_from-Plain i h = (drop i input, rw (within i h) refl, Plain-drop i input plain)

  pub parse_scheme-Placed :
      (p : Parser)
      → p.start ≡ 0
      → p.state ≡ scheme_state
      → p.end < length input
      → IsPlain p.out
      → Placed (parse_scheme input p)
  unfolding parse_scheme
  parse_scheme-Placed p h0 hs he parts =
      let (c, hc) = read_total input p.end he in
      elim (Bool-cases (c == b':')) [
        | inl e ↦
            let (t, good, pt) = sub-Plain p.start (p.end - p.start) (omega arith) in
            (
              record p {
                out = record p.out { scheme = t };
                state = authority_state;
                start = p.end + 1;
                end = p.end + 1;
              },
              rw (hc, e, good) refl,
              record { at = omega arith; parts = IsPlain-scheme p.out parts t pt },
            )
        | inr e ↦ elim (Bool-cases (p.end + 1 == length input)) [
          | inr h ↦ (
            record p { end = p.end + 1 },
            rw (hc, e, h) refl,
            record { at = rw hs h0; parts = parts },
          )
          | inl h ↦
              let a = starts_with input (b'/' ∷ b'/' ∷ []) in
              let b = starts_with input (b'/' ∷ []) in
              (
                record p {
                  state = if a then authority_state else if b then path_state else host_state;
                  end = 0;
                },
                rw (hc, e, h) refl,
                record { at = rw h0 (At-no_scheme (length input) a b); parts = parts },
              )
        ]
      ]

  pub parse_authority-Placed :
      (p : Parser)
      → p.start ≤ p.end
      → p.end < length input
      → IsPlain p.out
      → Placed (parse_authority input p)
  unfolding parse_authority
  parse_authority-Placed p h0 he parts = elim (Bool-cases (ltb (p.end + 1) (length input))) [
    | inr e ↦ (
      record p { state = path_state; end = p.start },
      rw e refl,
      record { at = omega arith; parts = parts },
    )
    | inl e ↦
        let (a, ha) = read_total input p.start (omega arith) in
        let (b, hb) = read_total input (p.end + 1) (ground (arith, e)) in
        elim (Bool-cases ((a == b'/') && (b == b'/'))) [
          | inl t ↦ (
            record p { state = userinfo_state; start = p.end + 1 + 1; end = p.end + 1 + 1 },
            rw (e, ha, hb, t) refl,
            record { at = ground (arith, e); parts = parts },
          )
          | inr t ↦ (
            record p { state = path_state; end = p.start },
            rw (e, ha, hb, t) refl,
            record { at = omega arith; parts = parts },
          )
        ]
  ]

  pub find_from-inside :
      (test : ℕ → Bool) (i idx : ℕ) → find_from test input i ≡ some idx → idx + 1 ≤ length input
  find_from-inside test i idx e =
      let (c, hc, ht) = find_from-read test input i idx e in
      omega (arith, read_inside input idx c hc)

  pub parse_userinfo-Placed :
      (p : Parser) → p.start ≤ length input → IsPlain p.out → Placed (parse_userinfo input p)
  unfolding parse_userinfo
  parse_userinfo-Placed p h0 parts =
      elim (Option-cases (find_from (λ c. c == b'@') input p.start)) [
        | inl e ↦ (
          record p { state = host_state },
          rw (e, parse_userinfo) refl,
          record { at = h0; parts = parts },
        )
        | inr (idx, e) ↦
            let (t, good, pt) = sub-Plain p.start (idx - p.start) h0 in
            let inside = find_from-inside (λ c. c == b'@') p.start idx e in
            elim (Option-cases (position (λ c. c == b':') t)) [
              | inl h ↦ (
                record {
                  out = record p.out { username = t };
                  state = host_state;
                  start = idx + 1;
                  end = idx + 1;
                },
                rw (e, parse_userinfo, good, h) refl,
                record { at = inside; parts = IsPlain-username p.out parts t pt },
              )
              | inr (split, h) ↦ (
                record {
                  out = record p.out {
                    username = take split t;
                    password = take (idx - (split + 1)) (drop (split + 1) t);
                  };
                  state = host_state;
                  start = idx + 1;
                  end = idx + 1;
                },
                rw (e, parse_userinfo, good, h) refl,
                record {
                  at = inside;
                  parts =
                      IsPlain-names p.out parts (take split t) (Plain-take split t pt)
                        (take (idx - (split + 1)) (drop (split + 1) t))
                        (Plain-cut (idx - (split + 1)) (split + 1) t pt);
                },
              )
            ]
      ]

  pub parse_part-Placed :
      (k : ℕ) (seps : List ℕ) (put : List ℕ → Url) (p : Parser)
      → k < 8
      → p.start ≤ length input
      → ((t : List ℕ) → Plain t → IsPlain (put t))
      → ((c : ℕ) → one_of seps c ≡ true → Starts k c)
      → Placed (parse_part input seps put p)
  unfolding parse_part
  parse_part-Placed k seps put p hk h0 parts hs =
      elim (Option-cases (find_from (one_of seps) input p.start)) [
        | inl e ↦
            let (t, good, pt) = sub_from-Plain p.start h0 in
            (
              record p { out = put t; state = done_state; end = length input },
              rw (e, parse_part, good) refl,
              record { at = h0; parts = parts t pt },
            )
        | inr (idx, e) ↦
            let (c, hc, ht) = find_from-read (one_of seps) input p.start idx e in
            let (s, hn, hr) = hs c ht in
            let at = if c == b'/' then idx else idx + 1 in
            let (t, good, pt) = sub-Plain p.start (idx - p.start) h0 in
            let inside = find_from-inside (one_of seps) p.start idx e in
            let near : at ≤ length input = ground (arith, inside) in
            (
              record { out = put t; state = s; start = at; end = at },
              rw (e, parse_part, good, hc, hn) refl,
              record {
                at = At-low (length input) at s (omega (arith, hr 0)) near;
                parts = parts t pt;
              },
            )
      ]

  pub parse_fragment-Placed :
      (p : Parser) → p.start ≤ length input → IsPlain p.out → Placed (parse_fragment input p)
  unfolding parse_fragment
  parse_fragment-Placed p h0 parts =
      let (t, good, pt) = sub_from-Plain p.start h0 in
      (
        record p { out = record p.out { fragment = t }; state = done_state },
        rw good refl,
        record { at = h0; parts = IsPlain-fragment p.out parts t pt },
      )
