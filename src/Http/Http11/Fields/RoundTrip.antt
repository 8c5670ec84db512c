-- ===== src/Http/Http11/Fields/RoundTrip.antt =====
-- Header fields, parsed back from the lines that `write_headers` writes for them.

use cppnet.Prelude.Memory.{Run, done}
use cppnet.Prelude.{
  ℕ, List, All, Bool, [], ap, append-nil, arith, drop, drop-append_cons, length, length-append,
  refl, some, sym, take, take-append, true, ◌++◌, ◌+◌, ◌<◌, ◌==◌, ◌^◌, ◌∙◌, ◌∷◌, ◌≡◌, Option,
  append_assoc, ltb, suc, zero, ◌≤◌, All-append, false,
}
use cppnet.Prelude.Strings.{Misses, position-some, position}
use cppnet.Io.Readline.{LineResult, line, IsLines}
use cppnet.Io.Readline.Lines.{is_newline}
use cppnet.Util.StringUtil.{join, split_string, trim_string}
use cppnet.Http.Headers.Map.{IsNew, add_value-IsNew}
use cppnet.Util.StringUtil.{split_string, trim_string, join}
use cppnet.Util.StringUtil.Trim.{not_space, trim_string-blanks, Blank}
use cppnet.Util.StringUtil.Join.{split_string-join}
use cppnet.Http.Headers.{Headers, add_value}
use cppnet.Http.Http11.{expected}
use cppnet.Http.Http11.Fields.{add_field, Parse, after_line, fields_loop, parse_headers}

abbrev pub is_colon : ℕ → Bool
is_colon c = c == b':'

abbrev pub is_comma : ℕ → Bool
is_comma c = c == b','

-- A text that is not empty, and neither starts nor ends in a blank.
abbrev pub IsTrimmed : List ℕ → Type 0
IsTrimmed cs =
    (x : ℕ) × (xs : List ℕ) × (ys : List ℕ) × (y : ℕ) × (cs ≡ x ∷ xs)
    × (cs ≡ ys ++ (y ∷ []))
    × (not_space x ≡ true)
    × (not_space y ≡ true)
    × (length cs < 2 ^ 62)

trim_string-IsTrimmed :
    (before cs : List ℕ)
    → IsTrimmed cs
    → Blank before
    → length before < 2 ^ 62
    → trim_string (before ++ cs) ≡ cs
trim_string-IsTrimmed before cs (x, xs, ys, y, hx, hy, nx, ny, hs) hb hl =
    ap (λ t. trim_string (before ++ t)) (sym (append-nil cs))
    ∙ trim_string-blanks before cs [] x y xs ys hx hy nx ny hb tt
        (omega (arith, length-append before (cs ++ []), length-append cs []))

-- A field with one value, and its line.
abbrev pub Field : Type 0
Field = List ℕ × List ℕ

abbrev pub field_line : Field → List ℕ
field_line f = f.0 ++ (b':' ∷ (b' ' ∷ f.1))

-- A field that its line stands for: trimmed, without a newline, with no colon in its key and no comma
-- in its value.
abbrev pub IsPlain : Field → Type 0
IsPlain f =
    IsTrimmed f.0
    × IsTrimmed f.1
    × Misses is_colon f.0
    × Misses is_comma f.1
    × Misses is_newline f.0
    × Misses is_newline f.1

split_string-one : (val : List ℕ) → Misses is_comma val → split_string val b',' 0 ≡ some (val ∷ [])
unfolding join
split_string-one val h = split_string-join b',' val [] (h, tt)

add_field-field_line :
    (f : Field) (headers : Headers)
    → IsPlain f
    → add_field (field_line f) headers ≡ some (add_value f.0 f.1 headers)
unfolding add_field
add_field-field_line (key, val) headers (tk, tv, ck, cv, nk, nv) =
    let colon : position is_colon (field_line (key, val)) ≡ some (length key) =
      position-some is_colon key b':' (b' ' ∷ val) ck refl in
    let name : trim_string (take (length key) (field_line (key, val))) ≡ key =
      ap trim_string (take-append key (b':' ∷ (b' ' ∷ val)) (length key) refl)
      ∙ trim_string-IsTrimmed [] key tk tt (omega arith) in
    let vals : split_string (trim_string (drop (length key + 1) (field_line (key, val)))) b',' 0
        ≡ some (val ∷ []) =
      ap (λ t. split_string (trim_string t) b',' 0)
        (drop-append_cons key b':' (b' ' ∷ val) (length key + 1) refl)
      ∙ ap (λ t. split_string t b',' 0)
          (trim_string-IsTrimmed (b' ' ∷ []) val tv (refl, tt) (omega arith))
      ∙ split_string-one val cv in
    rw (add_field, colon, vals, name) refl

-- The headers of fields with different keys, in the order of the fields.
abbrev pub headers_of : List Field → Headers
headers_of [] = []
headers_of (f ∷ fields) = (f.0, f.1 ∷ []) ∷ headers_of fields

abbrev pub AreNew : Headers → List Field → Type 0
AreNew past [] = Unit
AreNew past (f ∷ fields) = IsNew f.0 past × AreNew (past ++ ((f.0, f.1 ∷ []) ∷ [])) fields

-- The lines of the fields, the empty line, and what stands behind it.
abbrev pub fields_text : List Field → List ℕ → List ℕ
fields_text [] tail = 13 ∷ 10 ∷ tail
fields_text (f ∷ fields) tail = field_line f ++ (13 ∷ 10 ∷ fields_text fields tail)

abbrev pub fields_size : List Field → ℕ
fields_size [] = 0
fields_size (f ∷ fields) = length (field_line f) + fields_size fields

module _ {S : Type 0} (next_line : S → Run (Option (LineResult × S))) (max_read : ℕ) where
  after_line-text :
      (again : ℕ → Headers → S → Parse next_line max_read) (amount : ℕ) (text : List ℕ)
      (headers headers' : Headers) (s : S)
      → 0 < length text
      → add_field text headers ≡ some headers'
      → after_line next_line max_read again amount headers (line text, s)
        ≡ again (amount + length text) headers' s
  unfolding after_line
  after_line-text again amount [] headers headers' s hl e = absurd (omega arith)
  after_line-text again amount (c ∷ cs) headers headers' s hl e = rw (after_line, e) refl

  module _ (Valid : S → Type 0) (content : S → List ℕ) (limit : ℕ)
      (lines : IsLines next_line Valid content limit) where
    fields_loop-fields :
        (fuel amount : ℕ) (past : Headers) (fields : List Field) (tail : List ℕ) (s : S)
        → All IsPlain fields
        → AreNew past fields
        → All (λ f. length (field_line f) ≤ limit) fields
        → amount + fields_size fields < max_read
        → fields_size fields < fuel
        → Valid s
        → content s ≡ fields_text fields tail
        → (s' : S) × Valid s'
          × (content s' ≡ tail)
          × (fields_loop next_line max_read fuel amount past s
              ≡ done (some (expected (past ++ headers_of fields), s')))
    unfolding fields_loop
    fields_loop-fields zero amount past fields tail s hp hn hl hm hf valid e = absurd (omega arith)
    fields_loop-fields (suc fuel) amount past [] tail s hp hn hl hm hf valid e =
        let blank = lines [] tail s valid tt (omega arith) e in
        let below : ltb amount max_read ≡ true = ground (arith, hm) in
        (
          blank.0,
          blank.1,
          blank.2,
          rw (below, blank.3) (ap (λ h. done (some (expected h, blank.0))) (sym (append-nil past))),
        )
    fields_loop-fields (suc fuel) amount past (f ∷ fields) tail s hp hn hl hm hf valid e =
        let text = field_line f in
        let one =
          lines text (fields_text fields tail) s valid
            (All-append (λ c. is_newline c ≡ false) f.0 (b':' ∷ (b' ' ∷ f.1)) hp.0.4
              (refl, (refl, hp.0.5)))
            hl.0 e in
        let below : ltb amount max_read ≡ true = ground (arith, hm) in
        let size : 0 < length text = omega (arith, length-append f.0 (b':' ∷ (b' ' ∷ f.1))) in
        let past' = past ++ ((f.0, f.1 ∷ []) ∷ []) in
        let added : add_field text past ≡ some past' =
          add_field-field_line f past hp.0 ∙ ap some (add_value-IsNew f.0 f.1 past hn.0) in
        let rest =
          fields_loop-fields fuel (amount + length text) past' fields tail one.0 hp.1 hn.1 hl.1
            (omega arith) (omega (arith, size)) one.1 one.2 in
        (
          rest.0,
          rest.1,
          rest.2,
          rw (below, one.3)
              (after_line-text (fields_loop next_line max_read fuel) amount text past past' one.0
                  size added
                ∙ rest.3
                ∙ ap (λ h. done (some (expected h, rest.0)))
                    (append_assoc past ((f.0, f.1 ∷ []) ∷ []) (headers_of fields))),
        )

    -- The lines of trimmed fields with one value each, and no key twice, and the empty line behind
    -- them: where the source hands out lines that long and the lines are shorter than max_read
    -- together, parse_headers returns the fields, in their order, and leaves what stands behind.
    pub parse_headers-fields :
        (fields : List Field) (tail : List ℕ) (s : S)
        → All IsPlain fields
        → AreNew [] fields
        → All (λ f. length (field_line f) ≤ limit) fields
        → fields_size fields < max_read
        → Valid s
        → content s ≡ fields_text fields tail
        → (s' : S) × Valid s'
          × (content s' ≡ tail)
          × (parse_headers next_line max_read [] s ≡ done (some (expected (headers_of fields), s')))
    unfolding parse_headers
    parse_headers-fields fields tail s hp hn hl hm valid e =
        fields_loop-fields (suc max_read) 0 [] fields tail s hp hn hl (omega arith) (omega arith)
          valid e
