-- ===== src/Addr/Ipv4/Text.antt =====
-- `parse` of the text that `to_string` writes.

use cppnet.Util.StringUtil.{split_string, join, join_rest}
use cppnet.Util.StringUtil.Join.{split_string-join}
use cppnet.Prelude.Memory.{done}
use cppnet.Prelude.Strings.{Misses}
use cppnet.Prelude.{
  Bool, List, [], all_below, false, none, not, refl, some, true, ℕ, ◌&&◌, ◌==◌, ◌∷◌, ◌≡◌, ==_iff,
  IsByte, Option, all_below_sound, ap, arith, append-nil, sym, ◌++◌, ◌∙◌, suc,
}
use cppnet.Addr.Ipv4.{set_byte, Ipv4Addr, parse, parse_parts, to_string, decimal, byte_of_chars}

abbrev no_dot : List ℕ → Bool
no_dot [] = true
no_dot (c ∷ cs) = not (c == b'.') && no_dot cs

abbrev fine : ℕ → Bool
fine v = no_dot (decimal v) && elim (byte_of_chars (decimal v)) [ none ↦ false | some w ↦ w == v ]

decimal_table : all_below 256 fine ≡ true
decimal_table = refl

and_first : (a b : Bool) → (a && b) ≡ true → a ≡ true
and_first true b h = refl
and_first false b h = h

and_second : (a b : Bool) → (a && b) ≡ true → b ≡ true
and_second true b h = h
and_second false b h = absurd (ground (arith, h))

some_same : (o : Option ℕ) (v : ℕ) → elim o [ none ↦ false | some w ↦ w == v ] ≡ true → o ≡ some v
some_same none v h = absurd (ground (arith, h))
some_same (some w) v h = ap some ((==_iff w v).0 h)

fine-decimal : (v : ℕ) → IsByte v → fine v ≡ true
fine-decimal v h = all_below_sound 256 fine v decimal_table h

no_dot-Misses : (cs : List ℕ) → no_dot cs ≡ true → Misses (λ c. c == b'.') cs
no_dot-Misses [] h = tt
no_dot-Misses (c ∷ cs) h = (ground (arith, h), no_dot-Misses cs (ground (arith, h)))

pub decimal-Misses : (v : ℕ) → IsByte v → Misses (λ c. c == b'.') (decimal v)
decimal-Misses v h = no_dot-Misses (decimal v) (and_first _ _ (fine-decimal v h))

byte_of_chars-decimal : (v : ℕ) → IsByte v → byte_of_chars (decimal v) ≡ some v
byte_of_chars-decimal v h =
    some_same (byte_of_chars (decimal v)) v (and_second _ _ (fine-decimal v h))

parse_parts-cons :
    (part : List ℕ) (v n : ℕ) (parts : List (List ℕ)) (a : Ipv4Addr)
    → byte_of_chars part ≡ some v
    → parse_parts (part ∷ parts) (suc n) a ≡ parse_parts parts n (set_byte n v a)
unfolding parse_parts
parse_parts-cons part v n parts a h = rw (h, parse_parts) refl

-- Every address of four bytes is read back from its text.
pub parse-to_string :
    (a : Ipv4Addr)
    → IsByte a.b0
    → IsByte a.b1
    → IsByte a.b2
    → IsByte a.b3
    → parse (to_string a) ≡ some (done (some a))
unfolding parse parse_parts to_string join join_rest
parse-to_string a h0 h1 h2 h3 =
    let ps = decimal a.b2 ∷ decimal a.b1 ∷ decimal a.b0 ∷ [] in
    let blank : Ipv4Addr = record { b0 = 0; b1 = 0; b2 = 0; b3 = 0 } in
    let text : to_string a ≡ join (b'.' ∷ []) (decimal a.b3 ∷ ps) =
      ap (λ t. decimal a.b3 ++ (b'.' ∷ (decimal a.b2 ++ (b'.' ∷ (decimal a.b1 ++ (b'.' ∷ t))))))
        (sym (append-nil (decimal a.b0))) in
    let split = split_string-join b'.' (decimal a.b3) ps (
      decimal-Misses a.b3 h3,
      (decimal-Misses a.b2 h2, (decimal-Misses a.b1 h1, (decimal-Misses a.b0 h0, tt))),
    ) in
    let parts : split_string (to_string a) b'.' 0 ≡ some (decimal a.b3 ∷ ps) =
      ap (λ t. split_string t b'.' 0) text ∙ split in
    rw (parts, parse)
      (ap some (
        parse_parts-cons (decimal a.b3) a.b3 3 ps blank (byte_of_chars-decimal a.b3 h3)
        ∙ parse_parts-cons (decimal a.b2) a.b2 2 (decimal a.b1 ∷ decimal a.b0 ∷ [])
            (set_byte 3 a.b3 blank) (byte_of_chars-decimal a.b2 h2)
        ∙ parse_parts-cons (decimal a.b1) a.b1 1 (decimal a.b0 ∷ [])
            (set_byte 2 a.b2 (set_byte 3 a.b3 blank)) (byte_of_chars-decimal a.b1 h1)
        ∙ parse_parts-cons (decimal a.b0) a.b0 0 []
            (set_byte 1 a.b1 (set_byte 2 a.b2 (set_byte 3 a.b3 blank)))
            (byte_of_chars-decimal a.b0 h0)))
