-- ===== src/Tests/Patterns.antt =====
-- A literal, parsed, and repeated three times in a text.

use cppnet.Prelude.{◌≡◌, ℕ, codes, refl, arith, some, true}
use cppnet.Prelude.Memory.{done, fault}
use cppnet.Pattern.Match.{state_match}
use cppnet.Pattern.Match.Repeat.{Copies, repeated, state_match-Copies}
use cppnet.Pattern.Parse.{postfix_of}
use cppnet.Pattern.Parse.Literal.{postfix_of-literal}

postfix_of-literal_example : postfix_of (codes "ab") ≡ fault
postfix_of-literal_example =
    postfix_of-literal (codes "ab") (omega arith) (refl, (refl, tt)) (refl, (refl, tt))

state_match-Copies_example :
    (end : ℕ) × (state_match 8 (repeated (codes "ab")) (codes "xababab") 1
      ≡ done (some (true, end)))
    × Copies (codes "ab") (codes "xababab") 1 end
state_match-Copies_example =
    state_match-Copies (codes "ab") (codes "xababab") 1 (omega arith) (omega arith)
