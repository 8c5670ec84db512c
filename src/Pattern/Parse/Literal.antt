-- ===== src/Pattern/Parse/Literal.antt =====
-- A pattern that is one literal.

use cppnet.Prelude.{ℕ, List, [], ◌∷◌, ◌==◌, ◌≡◌, ◌<◌, false, length, refl, arith, ap}
use cppnet.Prelude.Memory.{Run, done, fault, ◌>>=◌}
use cppnet.Prelude.Strings.{Misses}
use cppnet.Pattern.Parse.{is_operator, scan_literal, parse_round, postfix_loop, postfix_of}

scan_literal-fault :
    (c : ℕ) (str : List ℕ)
    → Misses is_operator (c ∷ str)
    → Misses (λ x. x == 92) (c ∷ str)
    → scan_literal (c ∷ str) ≡ fault
unfolding scan_literal
scan_literal-fault c [] h k = rw h.0 refl
scan_literal-fault c (d ∷ str) h k =
    rw (h.0, k.1.0)
      (ap (λ (r : Run (List ℕ × List ℕ)). r >>= λ q. done (c ∷ q.0, q.1))
        (scan_literal-fault d str h.1 k.1))

parse_round-literal :
    (c : ℕ) (str : List ℕ)
    → is_operator c ≡ false
    → scan_literal (c ∷ str) ≡ fault
    → parse_round c str ([], []) ≡ fault
unfolding parse_round
parse_round-literal c str h k =
    let f1 : (c == b'(') ≡ false = ground (arith, h) in
    let f2 : (c == b')') ≡ false = ground (arith, h) in
    let f3 : (c == b'|') ≡ false = ground (arith, h) in
    let f4 : (c == b'[') ≡ false = ground (arith, h) in
    let f5 : (c == b']') ≡ false = ground (arith, h) in
    let f6 : (c == b'.') ≡ false = ground (arith, h) in
    let f7 : (c == b'*') ≡ false = ground (arith, h) in
    let f8 : (c == b'+') ≡ false = ground (arith, h) in
    let f9 : (c == b'?') ≡ false = ground (arith, h) in
    rw (f1, f2, f3, f4, f5, f6, f7, f8, f9) (rw k refl)

-- parse of a text that is not empty, without operators and backslashes, reads the char behind its
-- end.
pub postfix_of-literal :
    (str : List ℕ)
    → 0 < length str
    → Misses is_operator str
    → Misses (λ x. x == 92) str
    → postfix_of str ≡ fault
unfolding postfix_of postfix_loop
postfix_of-literal [] lt h k = absurd (omega arith)
postfix_of-literal (c ∷ str) lt h k =
    rw (parse_round-literal c str h.0 (scan_literal-fault c str h k), postfix_loop) refl
