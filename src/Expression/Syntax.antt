-- ===== src/Expression/Syntax.antt =====
-- The tokens and the operators of `_ExprParser` in src/protocyte/model.py, and what its methods
-- ask of the operations on values.
use protocyte.Common.{
  ℕ, Bool, true, false, Option, none, some, List, [], ◌∷◌, Result, Bytes, codes, text_eq, get_elem?,
}

-- A token of `_tokenize` with its text, of code points; the last token is `("EOF", "EOF")`.
pub data Token : Type 0 where
  number_token string_token ident_token op_token : Bytes → Token
  eof : Token

-- The second part of a token
abbrev pub text_of : Token → Bytes
text_of (number_token text) = text
text_of (string_token text) = text
text_of (ident_token text) = text
text_of (op_token text) = text
text_of eof = codes "EOF"

pub data BinaryOperator : Type 0 where
  or_else and_then bit_or bit_xor bit_and equal not_equal : BinaryOperator
  less less_equal greater greater_equal shift_left shift_right : BinaryOperator
  add subtract multiply divide modulo : BinaryOperator

pub data UnaryOperator : Type 0 where
  logical_not complement plus minus : UnaryOperator

-- The text that a method matches for its operator
abbrev pub symbol : BinaryOperator → Bytes
symbol or_else = codes "||"
symbol and_then = codes "&&"
symbol bit_or = codes "|"
symbol bit_xor = codes "^"
symbol bit_and = codes "&"
symbol equal = codes "=="
symbol not_equal = codes "!="
symbol less = codes "<"
symbol less_equal = codes "<="
symbol greater = codes ">"
symbol greater_equal = codes ">="
symbol shift_left = codes "<<"
symbol shift_right = codes ">>"
symbol add = codes "+"
symbol subtract = codes "-"
symbol multiply = codes "*"
symbol divide = codes "/"
symbol modulo = codes "%"

abbrev pub unary_symbol : UnaryOperator → Bytes
unary_symbol logical_not = codes "!"
unary_symbol complement = codes "~"
unary_symbol plus = codes "+"
unary_symbol minus = codes "-"

-- The operators that each method tests, in its order, from `_parse_mul` up to `_parse_or`
abbrev pub operator_table : List (List BinaryOperator)
operator_table =
    (multiply ∷ divide ∷ modulo ∷ [])
    ∷ (add ∷ subtract ∷ [])
    ∷ (shift_left ∷ shift_right ∷ [])
    ∷ (less ∷ less_equal ∷ greater ∷ greater_equal ∷ [])
    ∷ (equal ∷ not_equal ∷ [])
    ∷ (bit_and ∷ [])
    ∷ (bit_xor ∷ [])
    ∷ (bit_or ∷ [])
    ∷ (and_then ∷ [])
    ∷ (or_else ∷ [])
    ∷ []

-- Row 0 is that of `_parse_mul`, row 9 that of `_parse_or`.
abbrev pub operators : ℕ → List BinaryOperator
operators row = elim (get_elem? operator_table row) [ some table ↦ table | none ↦ [] ]

-- The tests of `_parse_unary`, in their order
abbrev pub unary_operators : List UnaryOperator
unary_operators = logical_not ∷ complement ∷ plus ∷ minus ∷ []

-- `_match`: the rest behind the next token, if its text is the given one
abbrev pub match_token : Bytes → List Token → Option (List Token)
match_token text [] = none
match_token text (token ∷ rest) = elim (text_eq (text_of token) text) [
  | true ↦ some rest
  | false ↦ none
]

-- A row of `if self._match(...)`: the first member whose text is the next token's
abbrev pub match_first : {A : Type 0} → (A → Bytes) → List A → List Token → Option (A × List Token)
match_first name [] tokens = none
match_first name (a ∷ table) tokens = elim (match_token (name a) tokens) [
  | some rest ↦ some (a, rest)
  | none ↦ match_first name table tokens
]

-- What the methods of the parser ask of values. The first argument is `_evaluate_values`.
pub record Semantics (Value E : Type 0) : Type 0 where
  -- A number, a string, a Boolean and a name of `_parse_primary`
  pub number : Bool → Bytes → Result E Value
  pub string : Bool → Bytes → Result E Value
  pub boolean : Bool → Bool → Value
  pub name : Bool → Bytes → Result E Value
  -- `_evaluate_function`
  pub call : Bool → Bytes → List Value → Result E Value
  -- The operators of `_parse_unary` on the parsed operand
  pub unary : UnaryOperator → Value → Result E Value
  -- What a method does between the left operand and the right one: the `_evaluate_values` of the
  -- right operand
  pub before_rhs : BinaryOperator → Bool → Value → Result E Bool
  -- What it does behind the right operand
  pub binary : BinaryOperator → Bool → Value → Value → Result E Value
