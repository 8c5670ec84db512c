-- ===== src/Url/Parser/Plain.antt =====
-- `url::parse` on texts without percent signs.

use cppnet.Prelude.{
  List, Option, Option-cases, [], ◌∷◌, ◌≡◌, ◌+◌, ◌==◌, inl, inr, refl, length, take, drop, zero,
  suc, none, some, ℕ,
}
use cppnet.Prelude.Memory.{done}
use cppnet.Prelude.Strings.{Misses, position}
use cppnet.Url.Percent.{decode}
use cppnet.Url.Percent.RoundTrip.{decode_loop-plain}
use cppnet.Url.Parser.{Url}
use cppnet.Url.Parser.Query.{query_round, query_loop, add_values}
use cppnet.Url.Parser.Loop.{decode_part, decode_parts}

abbrev pub Plain : List ℕ → Type 0
Plain cs = Misses (λ c. c == b'%') cs

pub Plain-take : (n : ℕ) (cs : List ℕ) → Plain cs → Plain (take n cs)
Plain-take zero cs h = tt
Plain-take (suc n) [] h = tt
Plain-take (suc n) (c ∷ cs) h = (h.0, Plain-take n cs h.1)

pub Plain-drop : (n : ℕ) (cs : List ℕ) → Plain cs → Plain (drop n cs)
Plain-drop zero cs h = h
Plain-drop (suc n) [] h = tt
Plain-drop (suc n) (c ∷ cs) h = Plain-drop n cs h.1

pub Plain-cut : (n i : ℕ) (cs : List ℕ) → Plain cs → Plain (take n (drop i cs))
Plain-cut n i cs h = Plain-take n (drop i cs) (Plain-drop i cs h)

decode-Plain : (cs : List ℕ) → Plain cs → decode cs ≡ done (some cs)
unfolding decode
decode-Plain cs h = decode_loop-plain (length cs) cs h

decode_part-Plain : (cs : List ℕ) → Plain cs → decode_part cs ≡ done (some cs)
decode_part-Plain [] h = refl
decode_part-Plain (c ∷ cs) h = decode-Plain (c ∷ cs) h

-- No part of the url has a percent sign.
pub record IsPlain (u : Url) : Type 0 where
  pub scheme : Plain u.scheme
  pub username : Plain u.username
  pub password : Plain u.password
  pub host : Plain u.host
  pub port : Plain u.port
  pub path : Plain u.path
  pub fragment : Plain u.fragment

module _ (u : Url) (h : IsPlain u) (t : List ℕ) (k : Plain t) where
  pub IsPlain-scheme : IsPlain (record u { scheme = t })
  IsPlain-scheme = record {
    scheme = k;
    username = h.username;
    password = h.password;
    host = h.host;
    port = h.port;
    path = h.path;
    fragment = h.fragment;
  }

  pub IsPlain-username : IsPlain (record u { username = t })
  IsPlain-username = record {
    scheme = h.scheme;
    username = k;
    password = h.password;
    host = h.host;
    port = h.port;
    path = h.path;
    fragment = h.fragment;
  }

  pub IsPlain-host : IsPlain (record u { host = t })
  IsPlain-host = record {
    scheme = h.scheme;
    username = h.username;
    password = h.password;
    host = k;
    port = h.port;
    path = h.path;
    fragment = h.fragment;
  }

  pub IsPlain-port : IsPlain (record u { port = t })
  IsPlain-port = record {
    scheme = h.scheme;
    username = h.username;
    password = h.password;
    host = h.host;
    port = k;
    path = h.path;
    fragment = h.fragment;
  }

  pub IsPlain-path : IsPlain (record u { path = t })
  IsPlain-path = record {
    scheme = h.scheme;
    username = h.username;
    password = h.password;
    host = h.host;
    port = h.port;
    path = k;
    fragment = h.fragment;
  }

  pub IsPlain-fragment : IsPlain (record u { fragment = t })
  IsPlain-fragment = record {
    scheme = h.scheme;
    username = h.username;
    password = h.password;
    host = h.host;
    port = h.port;
    path = h.path;
    fragment = k;
  }

  pub IsPlain-names : (t' : List ℕ) → Plain t' → IsPlain (record u { username = t; password = t' })
  IsPlain-names t' k' = record {
    scheme = h.scheme;
    username = k;
    password = k';
    host = h.host;
    port = h.port;
    path = h.path;
    fragment = h.fragment;
  }

pub decode_parts-IsPlain : (u : Url) → IsPlain u → decode_parts u ≡ done (some u)
unfolding decode_parts
decode_parts-IsPlain u h =
    rw
      (
        decode_part-Plain u.scheme h.scheme,
        decode_part-Plain u.username h.username,
        decode_part-Plain u.password h.password,
        decode_part-Plain u.host h.host,
        decode_part-Plain u.port h.port,
        decode_part-Plain u.path h.path,
        decode_part-Plain u.fragment h.fragment,
      )
      refl

query_round-Plain :
    (kv : List ℕ) (entries : List (List ℕ × List (List ℕ)))
    → Plain kv
    → (es : List (List ℕ × List (List ℕ))) × (query_round kv entries ≡ done (some es))
unfolding query_round
query_round-Plain kv entries h = elim (Option-cases (position (λ c. c == b'=') kv)) [
  | inl e ↦ (add_values kv [] entries, rw (e, query_round, decode-Plain kv h) refl)
  | inr (i, e) ↦ (
    add_values (take i kv) (drop (i + 1) kv ∷ []) entries,
    rw
        (
          e,
          query_round,
          decode-Plain (take i kv) (Plain-take i kv h),
          decode-Plain (drop (i + 1) kv) (Plain-drop (i + 1) kv h),
        )
        refl,
  )
]

pub query_loop-Plain :
    (fuel : ℕ) (raw : List ℕ) (entries : List (List ℕ × List (List ℕ)))
    → Plain raw
    → (o : Option (List (List ℕ × List (List ℕ)))) × (query_loop fuel raw entries ≡ done o)
unfolding query_loop
query_loop-Plain zero [] entries h = (some entries, refl)
query_loop-Plain (suc fuel) [] entries h = (some entries, refl)
query_loop-Plain zero (c ∷ raw) entries h = (none, refl)
query_loop-Plain (suc fuel) (c ∷ raw) entries h =
    elim (Option-cases (position (λ x. x == b'&') (c ∷ raw))) [
      | inl e ↦ let r = query_round-Plain (c ∷ raw) entries h in (some r.0, rw (e, query_loop) r.1)
      | inr (i, e) ↦
          let r = query_round-Plain (take i (c ∷ raw)) entries (Plain-take i (c ∷ raw) h) in
          let rest =
            query_loop-Plain fuel (drop (i + 1) (c ∷ raw)) r.0 (Plain-drop (i + 1) (c ∷ raw) h) in
          (rest.0, rw (e, query_loop, r.1) rest.1)
    ]
