-- ===== src/Addr/IpAddr/Text.antt =====
-- `parse` of the text that `to_string` writes.

use cppnet.Prelude.{
  suc, if◌then◌else◌, ℕ, List, Bool, Option, [], ◌∷◌, ◌++◌, ◌==◌, ◌≡◌, none, some, true, false,
  refl, ap, ◌∙◌, IsByte, arith, sym, ◌||◌, Option-cases, inl, inr, ==_refl, all_below,
  all_below_sound, All-append, ◌/◌, ◌%◌, ◌^◌,
}
use mathlib.Core.Path.{subst}
use cppnet.Prelude.Memory.{done}
use cppnet.Prelude.Strings.{Misses, position, position-none, misses, misses_sound}
use cppnet.Addr.Ipv4.{Ipv4Addr, parse, to_string, decimal}
use cppnet.Addr.Ipv4.Order.{IsAddr}
use cppnet.Addr.Ipv4.Text.{parse-to_string}
use cppnet.Addr.Ipv6.{parse_ipv6, ipv6_to_string, of_parts, texts_before, part_text, hexit}
use cppnet.Addr.Ipv6.Text.{AreParts, parse_ipv6-ipv6_to_string}
use cppnet.Addr.IpAddr.{
  IpAddr, ipv4, ipv6, has_char, is_found, parse_as_ipv4, parse_ip, ip_to_string,
}

-- An address whose text is parsed back to it, and whose text has the char that tells its kind.
abbrev pub IsRead : IpAddr → Type 0
IsRead (ipv4 a) =
    (parse (to_string a) ≡ some (done (some a)))
    × (has_char b':' (to_string a) ≡ false)
    × (has_char b'.' (to_string a) ≡ true)
IsRead (ipv6 a) =
    (parse_ipv6 (ipv6_to_string a) ≡ some (done (some a)))
    × (has_char b':' (ipv6_to_string a) ≡ true)

parse_ip-IsRead : (a : IpAddr) → IsRead a → parse_ip (ip_to_string a) ≡ some (done (some a))
unfolding parse_ip ip_to_string parse_as_ipv4
parse_ip-IsRead (ipv4 a) h = rw (h.1, h.2, h.0) refl
parse_ip-IsRead (ipv6 a) h = rw (h.1, h.0) refl

abbrev next_index : Option ℕ → Option ℕ
next_index none = none
next_index (some i) = some (suc i)

is_found-next :
    (b : Bool) (o : Option ℕ) → is_found (if b then some 0 else next_index o) ≡ (b || is_found o)
is_found-next true o = refl
is_found-next false none = refl
is_found-next false (some i) = refl

position_next :
    (c x : ℕ) (xs : List ℕ)
    → position (λ y. y == c) (x ∷ xs)
      ≡ (if x == c then some 0 else next_index (position (λ y. y == c) xs))
position_next c x xs = elim (Option-cases (position (λ y. y == c) xs)) [
  | inl e ↦ rw e refl
  | inr e ↦ rw e.1 refl
]

has_char-cons : (c x : ℕ) (xs : List ℕ) → has_char c (x ∷ xs) ≡ (x == c) || has_char c xs
has_char-cons c x xs =
    ap is_found (position_next c x xs) ∙ is_found-next (x == c) (position (λ y. y == c) xs)

has_char-behind : (c : ℕ) (xs ys : List ℕ) → has_char c ys ≡ true → has_char c (xs ++ ys) ≡ true
has_char-behind c [] ys h = h
has_char-behind c (x ∷ xs) ys h =
    has_char-cons c x (xs ++ ys) ∙ ground (arith, has_char-behind c xs ys h)

has_char-here : (c : ℕ) (xs ys : List ℕ) → has_char c (xs ++ (c ∷ ys)) ≡ true
has_char-here c xs ys =
    has_char-behind c xs (c ∷ ys)
      (has_char-cons c c ys ∙ ap (λ (b : Bool). b || has_char c ys) (==_refl c))

has_char-Misses : (c : ℕ) (xs : List ℕ) → Misses (λ x. x == c) xs → has_char c xs ≡ false
has_char-Misses c xs h = ap is_found (position-none (λ x. x == c) xs h)

-- The text of an IPv4 address has no colon.
colon_table : all_below 256 (λ v. misses (λ c. c == b':') (decimal v)) ≡ true
colon_table = refl

decimal_colon : (v : ℕ) → IsByte v → Misses (λ c. c == b':') (decimal v)
decimal_colon v h =
    misses_sound (λ c. c == b':') (decimal v)
      (all_below_sound 256 (λ v. misses (λ c. c == b':') (decimal v)) v colon_table h)

behind_dot :
    (v : ℕ) (text : List ℕ)
    → IsByte v
    → Misses (λ c. c == b':') text
    → Misses (λ c. c == b':') (decimal v ++ (b'.' ∷ text))
behind_dot v text h t =
    All-append (λ c. (c == b':') ≡ false) (decimal v) (b'.' ∷ text) (decimal_colon v h) (refl, t)

to_string-Misses : (a : Ipv4Addr) → IsAddr a → Misses (λ c. c == b':') (to_string a)
unfolding to_string
to_string-Misses a h =
    behind_dot a.b3 _ h.3 (behind_dot a.b2 _ h.2 (behind_dot a.b1 _ h.1 (decimal_colon a.b0 h.0)))

to_string-dot : (a : Ipv4Addr) → has_char b'.' (to_string a) ≡ true
unfolding to_string
to_string-dot a =
    has_char-here b'.' (decimal a.b3)
      (decimal a.b2 ++ (b'.' ∷ (decimal a.b1 ++ (b'.' ∷ decimal a.b0))))

texts_before-colon :
    (ps text : List ℕ)
    → has_char b':' text ≡ true
    → has_char b':' (texts_before (of_parts ps) text) ≡ true
texts_before-colon [] text h = h
texts_before-colon (p ∷ ps) text h =
    texts_before-colon ps _
      (has_char-here b':' (part_text (hexit (p / 2 ^ 8 % 256) (p % 256))) text)

ipv6_to_string-colon :
    (p q : ℕ) (ps : List ℕ) → has_char b':' (ipv6_to_string (of_parts (p ∷ q ∷ ps))) ≡ true
unfolding ipv6_to_string
ipv6_to_string-colon p q ps = texts_before-colon ps _ (
    has_char-here b':' (part_text (hexit (q / 2 ^ 8 % 256) (q % 256)))
      (part_text (hexit (p / 2 ^ 8 % 256) (p % 256))))

-- Four bytes, or eight parts of 16 bits.
abbrev pub IsWhole : IpAddr → Type 0
IsWhole (ipv4 a) = IsAddr a
IsWhole (ipv6 a) =
    (p0 p1 p2 p3 p4 p5 p6 p7 : ℕ) × AreParts (p7 ∷ p6 ∷ p5 ∷ p4 ∷ p3 ∷ p2 ∷ p1 ∷ p0 ∷ [])
    × (a ≡ of_parts (p0 ∷ p1 ∷ p2 ∷ p3 ∷ p4 ∷ p5 ∷ p6 ∷ p7 ∷ []))

-- An address of four bytes, or of eight parts of 16 bits, is parsed back, with its kind, from the
-- text that to_string writes.
pub parse_ip-ip_to_string :
    (a : IpAddr) → IsWhole a → parse_ip (ip_to_string a) ≡ some (done (some a))
parse_ip-ip_to_string (ipv4 a) h = parse_ip-IsRead (ipv4 a) (
  parse-to_string a h.0 h.1 h.2 h.3,
  has_char-Misses b':' (to_string a) (to_string-Misses a h),
  to_string-dot a,
)
parse_ip-ip_to_string (ipv6 a) (p0, p1, p2, p3, p4, p5, p6, p7, parts, e) =
    subst (λ b. parse_ip (ip_to_string (ipv6 b)) ≡ some (done (some (ipv6 b)))) (sym e)
      (parse_ip-IsRead (ipv6 (of_parts (p0 ∷ p1 ∷ p2 ∷ p3 ∷ p4 ∷ p5 ∷ p6 ∷ p7 ∷ []))) (
        parse_ipv6-ipv6_to_string p0 p1 p2 p3 p4 p5 p6 p7 parts,
        ipv6_to_string-colon p0 p1 (p2 ∷ p3 ∷ p4 ∷ p5 ∷ p6 ∷ p7 ∷ []),
      ))
