-- ===== src/Pattern/Parse.antt =====
-- The loops of `expr::parse` of src/pattern/pattern.cpp, up to the postfix form.
pub mod Literal
use cppnet.Prelude.{
  ℕ, List, Bool, Option, [], ◌∷◌, ◌++◌, ◌==◌, ◌&&◌, ◌||◌, not, if◌then◌else◌, leb, length, none,
  some, suc, zero, true, false, codes,
}
use cppnet.Prelude.Memory.{Run, done, fault, ◌>>=◌, ◌>>?◌}
use cppnet.Util.StringUtil.{replace}

pub data Op : Type 0 where
  vertical_bar bracket_open bracket_close period asterisk plus question_mark paren_open
        paren_close :
      Op

abbrev pub is_operator : ℕ → Bool
is_operator c =
    c == b'|'
    || (c == b'['
        || (c == b']'
            || (c == b'.'
                || (c == b'*' || (c == b'+' || (c == b'?' || (c == b'(' || c == b')')))))))

abbrev pub op_to_char : Op → List ℕ
op_to_char vertical_bar = codes "|"
op_to_char bracket_open = codes "["
op_to_char bracket_close = codes "]"
op_to_char period = codes "."
op_to_char asterisk = codes "*"
op_to_char plus = codes "+"
op_to_char question_mark = codes "?"
op_to_char paren_open = codes "("
op_to_char paren_close = codes ")"

-- The cases that `<=` tells apart.
abbrev pub level : Op → ℕ
level vertical_bar = 0
level bracket_open = 0
level bracket_close = 0
level period = 1
level asterisk = 2
level plus = 2
level question_mark = 2
level paren_open = 3
level paren_close = 3

-- `operator<=`: a parenthesis is so for parentheses only.
abbrev pub op_le : Op → Op → Bool
op_le lhs rhs = if level lhs == 3 then level rhs == 3 else leb (level lhs) (level rhs)

abbrev pub is_paren_open : Op → Bool
is_paren_open paren_open = true
is_paren_open o = false

abbrev pub is_bracket_open : Op → Bool
is_bracket_open bracket_open = true
is_bracket_open o = false

-- The stack of operators, with its top first, and the queue of the output.
abbrev pub Stacks : Type 0
Stacks = List Op × List (List ℕ)

pub handle_op : Op → List Op → List (List ℕ) → Stacks
handle_op o [] output = (o ∷ [], output)
handle_op o (top ∷ operators) output =
    if not (is_paren_open top) && op_le o top
    then handle_op o operators (output ++ (op_to_char top ∷ []))
    else (o ∷ top ∷ operators, output)

-- The loop of a closing char, up to its opening one. `none` is an exception.
pub close : (Op → Bool) → List Op → List (List ℕ) → Option Stacks
close is_open [] output = none
close is_open (top ∷ operators) output =
    if is_open top
    then some (operators, output)
    else close is_open operators (output ++ (op_to_char top ∷ []))

-- The inner loop of a literal: what it takes, and where it ends. It reads the char behind each one
-- that it takes, also behind the last one of the text.
pub scan_literal : List ℕ → Run (List ℕ × List ℕ)
scan_literal [] = done ([], [])
scan_literal (c ∷ []) = if is_operator c then done ([], c ∷ []) else fault
scan_literal (c ∷ d ∷ str) =
    let escaped = scan_literal str >>= λ r. done (c ∷ d ∷ r.0, r.1) in
    let plain = scan_literal (d ∷ str) >>= λ r. done (c ∷ r.0, r.1) in
    if is_operator c then done ([], c ∷ d ∷ str) else if d == 92 then escaped else plain

-- What a round of the loop leaves: the rest of the text, and the stacks.
pub data Round : Type 0 where
  goes_on : List ℕ → Stacks → Round
  throws : Round

abbrev pub behind : List ℕ → List ℕ
behind [] = []
behind (c ∷ str) = str

abbrev pub closed : List ℕ → Option Stacks → Run (Option Round)
closed str none = done (some throws)
closed str (some stacks) = done (some (goes_on str stacks))

abbrev pub literal_round : List ℕ → Stacks → Run (Option Round)
literal_round str stacks = do
  r ← scan_literal str
  elim (replace r.0 (92 ∷ []) []) [
    | none ↦ done none
    | some lit ↦ done (some (goes_on (behind r.1) (stacks.0, stacks.1 ++ (lit ∷ []))))
  ]

abbrev pub op_round : Op → List ℕ → Stacks → Run (Option Round)
op_round o str stacks = done (some (goes_on str (handle_op o stacks.0 stacks.1)))

pub parse_round : ℕ → List ℕ → Stacks → Run (Option Round)
unfolding handle_op close scan_literal
parse_round c str stacks =
    if c == b'('
    then done (some (goes_on str (paren_open ∷ stacks.0, stacks.1)))
    else if c == b')'
    then closed str (close is_paren_open stacks.0 stacks.1)
    else if c == b'|'
    then op_round vertical_bar str stacks
    else if c == b'['
    then done (some (goes_on str (bracket_open ∷ stacks.0, stacks.1)))
    else if c == b']'
    then closed str (close is_bracket_open stacks.0 stacks.1)
    else if c == b'.'
    then op_round period str stacks
    else if c == b'*'
    then op_round asterisk str stacks
    else if c == b'+'
    then op_round plus str stacks
    else if c == b'?'
    then op_round question_mark str stacks
    else literal_round (c ∷ str) stacks

-- What is left on the stack goes to the output. `none` is an exception.
pub finish : List Op → List (List ℕ) → Option (List (List ℕ))
finish [] output = some output
finish (o ∷ operators) output =
    if level o == 3 then none else finish operators (output ++ (op_to_char o ∷ []))

-- The loop over the text. Without fuel it has not ended.
pub postfix_loop : ℕ → List ℕ → Stacks → Run (Option (Option (List (List ℕ))))
unfolding parse_round finish
postfix_loop n [] stacks = done (some (finish stacks.0 stacks.1))
postfix_loop zero (c ∷ str) stacks = done none
postfix_loop (suc n) (c ∷ str) stacks = parse_round c str stacks >>? λ r. elim r [
  | throws ↦ done (some none)
  | goes_on rest next ↦ postfix_loop n rest next
]

-- The postfix form of a pattern, or an exception.
pub postfix_of : List ℕ → Run (Option (Option (List (List ℕ))))
unfolding postfix_loop
postfix_of str = postfix_loop (length str) str ([], [])
