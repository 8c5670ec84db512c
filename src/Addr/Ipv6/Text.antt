-- ===== src/Addr/Ipv6/Text.antt =====
-- `parse` of the text that `to_string` writes.

use cppnet.Prelude.Bits.{bit_or_disjoint}
use cppnet.Prelude.Memory.{done}
use mathlib.Core.Path.{subst}
use cppnet.Prelude.{
  length, append-nil, replicate, set, ◌++◌, All, map, ℕ, List, Bool, [], ◌∷◌, ◌+◌, ◌*◌, ◌/◌, ◌%◌,
  ◌^◌, ◌&&◌, ◌==◌, ◌<◌, ◌≡◌, ltb, none, some, true, false, refl, ◌∙◌, arith, not, all_below,
  Bool-cases, inl, inr, Option, ap, if◌then◌else◌, sym,
}
use cppnet.Prelude.Memory.{done}
use cppnet.Prelude.Bits.{bit_or_disjoint}
use cppnet.Util.StringUtil.{split_string, join, join_rest}
use cppnet.Util.StringUtil.Join.{split_string-join}
use cppnet.Prelude.Strings.{Misses}
use cppnet.Addr.Ipv6.{
  part_digits, digit_value, digits_number, part_of_chars, hex_char, part_text, of_parts,
  parse_groups, parse_ipv6, hexit, texts_before, ipv6_to_string,
}

abbrev fine : ℕ → Bool
fine d =
    not (hex_char d == b':') && elim (digit_value (hex_char d)) [ none ↦ false | some w ↦ w == d ]

fine_table : all_below 16 fine ≡ true
fine_table = refl

digit_value-hex_char : (d : ℕ) → d < 16 → digit_value (hex_char d) ≡ some d
digit_value-hex_char d h = ground arith

hex_char-colon : (d : ℕ) → d < 16 → (hex_char d == b':') ≡ false
hex_char-colon d h = ground arith

abbrev AreDigits : List ℕ → Type 0
AreDigits ds = All (λ d. d < 16) ds

-- The number of some digits.
abbrev horner : ℕ → List ℕ → ℕ
horner value [] = value
horner value (d ∷ ds) = horner (value * 16 + d) ds

hex_chars-Misses : (ds : List ℕ) → AreDigits ds → Misses (λ c. c == b':') (map hex_char ds)
hex_chars-Misses [] h = tt
hex_chars-Misses (d ∷ ds) h = (hex_char-colon d h.0, hex_chars-Misses ds h.1)

digits_number-hex_chars :
    (ds : List ℕ) (value : ℕ)
    → AreDigits ds
    → digits_number value (map hex_char ds) ≡ horner value ds
digits_number-hex_chars [] value h = refl
digits_number-hex_chars (d ∷ ds) value h =
    ap
      (λ (o : Option ℕ). elim o [
        | none ↦ value
        | some d ↦ digits_number (value * 16 + d) (map hex_char ds)
      ])
      (digit_value-hex_char d h.0)
    ∙ digits_number-hex_chars ds (value * 16 + d) h.1

abbrev below_limit : ℕ → Option ℕ
below_limit value = if ltb value (2 ^ 16) then some value else none

part_of_chars-hex_chars :
    (d : ℕ) (ds : List ℕ)
    → AreDigits (d ∷ ds)
    → part_of_chars (map hex_char (d ∷ ds)) ≡ below_limit (horner d ds)
part_of_chars-hex_chars d ds h =
    ap
      (λ (o : Option ℕ). elim o [
        | none ↦ none
        | some d ↦ below_limit (digits_number d (map hex_char ds))
      ])
      (digit_value-hex_char d h.0)
    ∙ ap below_limit (digits_number-hex_chars ds d h.1)

part_digits_lem :
    (v : ℕ)
    → v < 2 ^ 16
    → (d : ℕ) × (ds : List ℕ) × (part_digits v ≡ d ∷ ds) × AreDigits (d ∷ ds) × (horner d ds ≡ v)
part_digits_lem v h = elim (Bool-cases (ltb v (2 ^ 4))) [
  | inl one ↦ (v, [], rw one refl, (ground (arith, one), tt), refl)
  | inr more ↦ elim (Bool-cases (ltb v (2 ^ 8))) [
    | inl two ↦ (
      v / 2 ^ 4,
      (v % 2 ^ 4) ∷ [],
      rw (more, two) refl,
      (ground (arith, two), (omega arith, tt)),
      omega arith,
    )
    | inr more' ↦ elim (Bool-cases (ltb v (2 ^ 12))) [
      | inl three ↦ (
        v / 2 ^ 8,
        (v / 2 ^ 4 % 2 ^ 4) ∷ (v % 2 ^ 4) ∷ [],
        rw (more, more', three) refl,
        (ground (arith, three), (omega arith, (omega arith, tt))),
        omega arith,
      )
      | inr four ↦ (
        v / 2 ^ 12,
        (v / 2 ^ 8 % 2 ^ 4) ∷ (v / 2 ^ 4 % 2 ^ 4) ∷ (v % 2 ^ 4) ∷ [],
        rw (more, more', four) refl,
        (omega arith, (omega arith, (omega arith, (omega arith, tt)))),
        omega arith,
      )
    ]
  ]
]

part_text-Misses : (v : ℕ) → v < 2 ^ 16 → Misses (λ c. c == b':') (part_text v)
part_text-Misses v h =
    let r = part_digits_lem v h in
    subst (λ ds. Misses (λ c. c == b':') (map hex_char ds)) (sym r.2)
      (hex_chars-Misses (r.0 ∷ r.1) r.3)

part_of_chars-part_text : (v : ℕ) → v < 2 ^ 16 → part_of_chars (part_text v) ≡ some v
part_of_chars-part_text v h =
    let r = part_digits_lem v h in
    let below : ltb v (2 ^ 16) ≡ true = ground arith in
    ap (λ ds. part_of_chars (map hex_char ds)) r.2
    ∙ part_of_chars-hex_chars r.0 r.1 r.3
    ∙ ap below_limit r.4
    ∙ ap (λ (b : Bool). if b then some v else none) below

abbrev pub AreParts : List ℕ → Type 0
AreParts ps = All (λ p. p < 2 ^ 16) ps

hexit-part : (p : ℕ) → p < 2 ^ 16 → hexit (p / 2 ^ 8 % 256) (p % 256) ≡ p
hexit-part p h = omega (arith, bit_or_disjoint 8 (p / 2 ^ 8 % 256) (p % 256) (omega arith))

-- The texts of some parts, the last one first, in front of a text.
abbrev parts_before : List ℕ → List ℕ → List ℕ
parts_before [] text = text
parts_before (p ∷ ps) text = parts_before ps (part_text p ++ (b':' ∷ text))

texts_before-of_parts :
    (ps text : List ℕ) → AreParts ps → texts_before (of_parts ps) text ≡ parts_before ps text
texts_before-of_parts [] text h = refl
texts_before-of_parts (p ∷ ps) text h =
    ap (λ q. texts_before (of_parts ps) (part_text q ++ (b':' ∷ text))) (hexit-part p h.0)
    ∙ texts_before-of_parts ps (part_text p ++ (b':' ∷ text)) h.1

parts-Misses : (ps : List ℕ) → AreParts ps → All (λ s. Misses (λ c. c == b':') s) (map part_text ps)
parts-Misses [] h = tt
parts-Misses (p ∷ ps) h = (part_text-Misses p h.0, parts-Misses ps h.1)

-- The array, with parts written from an element down to the first.
abbrev set_down : List ℕ → List ℕ → List ℕ
set_down [] values = values
set_down (p ∷ ps) values = set_down ps (set values (length ps) p)

parse_groups-parts :
    (ps values : List ℕ)
    → AreParts ps
    → parse_groups (map part_text ps) (length ps) values
      ≡ done (some (of_parts (set_down ps values)))
unfolding parse_groups
parse_groups-parts [] values h = refl
parse_groups-parts (p ∷ ps) values h =
    ap
      (λ (o : Option ℕ). elim o [
        | none ↦ done none
        | some v ↦ parse_groups (map part_text ps) (length ps) (set values (length ps) v)
      ])
      (part_of_chars-part_text p h.0)
    ∙ parse_groups-parts ps (set values (length ps) p) h.1

-- The address of eight parts of 16 bits is parsed back from the text that to_string writes, and the
-- split of that text ends.
pub parse_ipv6-ipv6_to_string :
    (p0 p1 p2 p3 p4 p5 p6 p7 : ℕ)
    → AreParts (p7 ∷ p6 ∷ p5 ∷ p4 ∷ p3 ∷ p2 ∷ p1 ∷ p0 ∷ [])
    → parse_ipv6 (ipv6_to_string (of_parts (p0 ∷ p1 ∷ p2 ∷ p3 ∷ p4 ∷ p5 ∷ p6 ∷ p7 ∷ [])))
      ≡ some (done (some (of_parts (p0 ∷ p1 ∷ p2 ∷ p3 ∷ p4 ∷ p5 ∷ p6 ∷ p7 ∷ []))))
unfolding parse_ipv6 ipv6_to_string join join_rest
parse_ipv6-ipv6_to_string p0 p1 p2 p3 p4 p5 p6 p7
      (h7, (h6, (h5, (h4, (h3, (h2, (h1, (h0, h)))))))) =
    let rest : List ℕ = p6 ∷ p5 ∷ p4 ∷ p3 ∷ p2 ∷ p1 ∷ p0 ∷ [] in
    let behind : List ℕ = p1 ∷ p2 ∷ p3 ∷ p4 ∷ p5 ∷ p6 ∷ p7 ∷ [] in
    let all : AreParts (p7 ∷ rest) = (h7, (h6, (h5, (h4, (h3, (h2, (h1, (h0, tt)))))))) in
    let text : ipv6_to_string (of_parts (p0 ∷ behind))
        ≡ join (b':' ∷ []) (part_text p7 ∷ map part_text rest) =
      ap (λ q. texts_before (of_parts behind) (part_text q)) (hexit-part p0 h0)
      ∙ texts_before-of_parts behind (part_text p0) (h1, (h2, (h3, (h4, (h5, (h6, (h7, tt)))))))
      ∙ ap (parts_before behind) (sym (append-nil (part_text p0))) in
    let split : split_string (ipv6_to_string (of_parts (p0 ∷ behind))) b':' 0
        ≡ some (map part_text (p7 ∷ rest)) =
      ap (λ t. split_string t b':' 0) text
      ∙ split_string-join b':' (part_text p7) (map part_text rest) (parts-Misses (p7 ∷ rest) all) in
    rw (split, parse_ipv6) (ap some (parse_groups-parts (p7 ∷ rest) (replicate 8 0) all))
