-- ===== src/Io/Readline/Lines.antt =====
-- Lines that end in a carriage return and a newline.

use cppnet.Prelude.{
  ℕ, List, Bool, Bool-cases, [], ap, arith, drop, drop-append, false, inl, inr, leb, length,
  length-append, refl, suc, sym, take, take-append-drop, true, ◌++◌, ◌-◌, ◌==◌, ◌∙◌, ◌∷◌, ◌≡◌,
  All-append, All-behind, append-nil, append_assoc, some, zero, ◌+◌, ◌≤◌, take-append,
}
use cppnet.Prelude.Memory.{Run, done}
use cppnet.Prelude.Strings.{Misses, same_string_sound, same_string}
use cppnet.Io.{Reader, IsSource, Feeds}
use cppnet.Io.BufferedReader.{BufferedReader, peek}
use cppnet.Io.BufferedReader.Deliver.{IsValid, whole}
use cppnet.Io.BufferedReader.Byte.{peek-Peeked, buffered_read-byte}
use mathlib.Core.Path.{subst}
use cppnet.Io.Readline.{IsLines, readline_loop, ends_with, line, readline}

abbrev pub line_end : List ℕ
line_end = 13 ∷ 10 ∷ []

abbrev pub is_newline : ℕ → Bool
is_newline c = c == 10

ends_with-Misses : (text : List ℕ) → Misses is_newline text → ends_with text line_end ≡ false
ends_with-Misses text h = elim (Bool-cases (ends_with text line_end)) [
  | inr e ↦ e
  | inl e ↦
      let n = length text - 2 in
      let same : same_string (drop n text) line_end ≡ true = ground (arith, e) in
      let split : text ≡ take n text ++ line_end =
        sym (take-append-drop n text)
        ∙ ap (λ t. take n text ++ t) (same_string_sound (drop n text) line_end same) in
      let behind =
        All-behind (λ x. is_newline x ≡ false) (take n text) line_end
          (subst (Misses is_newline) split h) in
      absurd (ground (arith, behind.1.0))
]

ends_with-line_end : (text : List ℕ) → ends_with (text ++ line_end) line_end ≡ true
ends_with-line_end text =
    let size = length-append text line_end in
    let long : leb 2 (length (text ++ line_end)) ≡ true = ground (arith, size) in
    rw (long, drop-append text line_end (length (text ++ line_end) - 2) (omega (arith, size))) refl

without_end-cut : (text : List ℕ) → take (length (text ++ line_end) - 2) (text ++ line_end) ≡ text
without_end-cut text =
    take-append text line_end (length (text ++ line_end) - 2)
      (omega (arith, length-append text line_end))

module _ {S : Type 0} (rd : Reader S) (Ok : S → Type 0) (held : S → List ℕ)
    (src : IsSource rd Ok held) (overlapping : List ℕ → ℕ → Run (List ℕ)) where
  abbrev Moves : Type 0
  Moves = (buf : List ℕ) (k : ℕ) → overlapping buf k ≡ done (drop k buf)

  readline_loop-byte :
      (fuel : ℕ) (text : List ℕ) (s : BufferedReader S) (c : ℕ) (rest : List ℕ)
      → Moves
      → Feeds rd Ok held
      → IsValid rd Ok held s
      → whole rd Ok held s ≡ c ∷ rest
      → ends_with text line_end ≡ false
      → (s' : BufferedReader S) × IsValid rd Ok held s'
        × (whole rd Ok held s' ≡ rest)
        × (readline_loop rd overlapping line_end (suc fuel) text s
            ≡ readline_loop rd overlapping line_end fuel (text ++ (c ∷ [])) s')
  unfolding readline_loop
  readline_loop-byte fuel text s c rest moves feeds valid e more =
      let p = peek-Peeked rd Ok held src overlapping s c rest feeds valid e in
      let s₁ = (peek rd s).1 in
      let got = buffered_read-byte rd Ok held src overlapping s₁ c p.1 moves p.2 in
      (
        record { impl = s₁.impl; buf = p.1; capacity = s₁.capacity; err = s₁.err },
        (p.4.0, omega (arith, ap length p.2, p.4.1), p.4.2),
        p.3,
        rw (more, p.0, got) refl,
      )

  readline_loop-end :
      (fuel : ℕ) (text : List ℕ) (s : BufferedReader S)
      → readline_loop rd overlapping line_end fuel (text ++ line_end) s ≡ done (some (line text, s))
  unfolding readline_loop
  readline_loop-end zero text s =
      rw (ends_with-line_end text) (ap (λ t. done (some (line t, s))) (without_end-cut text))
  readline_loop-end (suc fuel) text s =
      rw (ends_with-line_end text) (ap (λ t. done (some (line t, s))) (without_end-cut text))

  -- The loop, behind a part of the line without a newline.
  readline_loop-line :
      (fuel : ℕ) (past todo rest : List ℕ) (s : BufferedReader S)
      → Moves
      → Feeds rd Ok held
      → IsValid rd Ok held s
      → Misses is_newline past
      → Misses is_newline todo
      → length todo + 2 ≤ fuel
      → whole rd Ok held s ≡ todo ++ (line_end ++ rest)
      → (s' : BufferedReader S) × IsValid rd Ok held s'
        × (whole rd Ok held s' ≡ rest)
        × (readline_loop rd overlapping line_end fuel past s
            ≡ done (some (line (past ++ todo), s')))
  readline_loop-line zero past todo rest s moves feeds valid hp ht hf e = absurd (omega arith)
  readline_loop-line (suc zero) past todo rest s moves feeds valid hp ht hf e = absurd (omega arith)
  readline_loop-line (suc (suc fuel)) past [] rest s moves feeds valid hp ht hf e =
      let more = ends_with-Misses past hp in
      let one = readline_loop-byte (suc fuel) past s 13 (10 ∷ rest) moves feeds valid e more in
      let more' : ends_with (past ++ (13 ∷ [])) line_end ≡ false =
        ends_with-Misses (past ++ (13 ∷ []))
          (All-append (λ x. is_newline x ≡ false) past (13 ∷ []) hp (refl, tt)) in
      let two =
        readline_loop-byte fuel (past ++ (13 ∷ [])) one.0 10 rest moves feeds one.1 one.2 more' in
      (
        two.0,
        two.1,
        two.2,
        one.3
            ∙ two.3
            ∙ ap (λ t. readline_loop rd overlapping line_end fuel t two.0)
                (append_assoc past (13 ∷ []) (10 ∷ []))
            ∙ readline_loop-end fuel past two.0
            ∙ ap (λ t. done (some (line t, two.0))) (sym (append-nil past)),
      )
  readline_loop-line (suc (suc fuel)) past (c ∷ todo) rest s moves feeds valid hp ht hf e =
      let more = ends_with-Misses past hp in
      let one =
        readline_loop-byte (suc fuel) past s c (todo ++ (line_end ++ rest)) moves feeds valid e
          more in
      let tail =
        readline_loop-line (suc fuel) (past ++ (c ∷ [])) todo rest one.0 moves feeds one.1
          (All-append (λ x. is_newline x ≡ false) past (c ∷ []) hp (ht.0, tt)) ht.1 (omega arith)
          one.2 in
      (
        tail.0,
        tail.1,
        tail.2,
        one.3 ∙ tail.3 ∙ ap (λ t. done (some (line t, tail.0))) (append_assoc past (c ∷ []) todo),
      )

  -- Over a buffered_reader whose source holds a line without a newline in it and the line end, and
  -- gives a byte while it holds any, where copy_backward moves bytes the way that copy would: with
  -- two rounds more than the line has bytes, readline returns the line, and leaves what stands
  -- behind its end.
  pub readline-line :
      (fuel : ℕ) (text rest : List ℕ) (s : BufferedReader S)
      → ((buf : List ℕ) (k : ℕ) → overlapping buf k ≡ done (drop k buf))
      → Feeds rd Ok held
      → IsValid rd Ok held s
      → Misses is_newline text
      → length text + 2 ≤ fuel
      → whole rd Ok held s ≡ text ++ (line_end ++ rest)
      → (s' : BufferedReader S) × IsValid rd Ok held s'
        × (whole rd Ok held s' ≡ rest)
        × (readline rd overlapping line_end fuel s ≡ done (some (line text, s')))
  unfolding readline
  readline-line fuel text rest s moves feeds valid ht hf e =
      readline_loop-line fuel [] text rest s moves feeds valid tt ht hf e

  -- readline with enough fuel for lines of `limit` bytes is a source of lines.
  pub readline-IsLines :
      (limit : ℕ)
      → ((buf : List ℕ) (k : ℕ) → overlapping buf k ≡ done (drop k buf))
      → Feeds rd Ok held
      → IsLines
          (readline rd overlapping line_end (limit + 2))
          (IsValid rd Ok held)
          (whole rd Ok held)
          limit
  readline-IsLines limit moves feeds text rest s valid ht hl e =
      readline-line (limit + 2) text rest s moves feeds valid ht (omega arith) e
