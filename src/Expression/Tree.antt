-- ===== src/Expression/Tree.antt =====
-- The abstract syntax of the expressions of src/protocyte/model.py: the tokens that a tree is
-- written as, the precedences that these tokens respect, and the value of a tree.
pub mod Symbols
pub mod Levels
pub mod Words
pub mod Climb
pub mod Calls
pub mod Refines
use protocyte.Common.{
  ℕ, zero, suc, max, ◌≤◌, Bool, true, false, not, ◌≡◌, List, [], ◌∷◌, ◌++◌, Result, ok, err, ◌>>=◌,
  Bytes, codes, text_in,
}
use protocyte.Expression.Syntax.{
  Token, number_token, string_token, ident_token, op_token, eof, BinaryOperator, UnaryOperator,
  or_else, and_then, bit_or, bit_xor, bit_and, equal, not_equal, less, less_equal, greater,
  greater_equal, shift_left, shift_right, add, subtract, multiply, divide, modulo, symbol,
  unary_symbol, Semantics,
}

mutual
  pub data Tree : Type 0 where
    number string name : Bytes → Tree
    boolean : Bool → Tree
    call : Bytes → Trees → Tree
    unary : UnaryOperator → Tree → Tree
    group : Tree → Tree
    binary : BinaryOperator → Tree → Tree → Tree

  pub data Trees : Type 0 where
    nil : Trees
    cons : Tree → Trees → Trees

abbrev pub open_token : Token
open_token = op_token (codes "(")

abbrev pub close_token : Token
close_token = op_token (codes ")")

abbrev pub comma_token : Token
comma_token = op_token (codes ",")

abbrev pub boolean_token : Bool → Token
boolean_token true = ident_token (codes "true")
boolean_token false = ident_token (codes "false")

-- The tokens of a tree, without parentheses of their own
unfoldable mutual
  pub written : Tree → List Token
  written (number text) = number_token text ∷ []
  written (string text) = string_token text ∷ []
  written (name text) = ident_token text ∷ []
  written (boolean b) = boolean_token b ∷ []
  written (call text args) = ident_token text ∷ open_token ∷ written_arguments args
  written (unary operator e) = op_token (unary_symbol operator) ∷ written e
  written (group e) = open_token ∷ written e ++ close_token ∷ []
  written (binary operator lhs rhs) = written lhs ++ op_token (symbol operator) ∷ written rhs

  pub written_arguments : Trees → List Token
  written_arguments nil = close_token ∷ []
  written_arguments (cons e args) = written e ++ written_further args

  pub written_further : Trees → List Token
  written_further nil = close_token ∷ []
  written_further (cons e args) = comma_token ∷ written e ++ written_further args

-- The row of `operators` that holds the operator
abbrev pub row_of : BinaryOperator → ℕ
row_of multiply = 0
row_of divide = 0
row_of modulo = 0
row_of add = 1
row_of subtract = 1
row_of shift_left = 2
row_of shift_right = 2
row_of less = 3
row_of less_equal = 3
row_of greater = 3
row_of greater_equal = 3
row_of equal = 4
row_of not_equal = 4
row_of bit_and = 5
row_of bit_xor = 6
row_of bit_or = 7
row_of and_then = 8
row_of or_else = 9

-- A text that `_tokenize` makes no operator of
abbrev pub is_word : Bytes → Bool
is_word text = not (text_in text (codes "!" ∷ codes "~" ∷ codes "+" ∷ codes "-" ∷ codes ")" ∷ []))

abbrev pub is_identifier : Bytes → Bool
is_identifier text = not (text_in text (codes "true" ∷ codes "false" ∷ []))

-- The tokens of the tree can stand at a level: operators of a row below it bind more tightly than
-- those of the level, the left operand of an operator is of its own level, the right one of the level
-- below, operands of a unary operator of level 0, and anything between parentheses.
unfoldable mutual
  pub Fits : ℕ → Tree → Type 0
  Fits level (number text) = is_word text ≡ true
  Fits level (string text) = is_word text ≡ true
  Fits level (name text) = (is_word text ≡ true) × (is_identifier text ≡ true)
  Fits level (boolean b) = Unit
  Fits level (call text args) = (is_word text ≡ true) × (is_identifier text ≡ true) × AllFit args
  Fits level (unary operator e) = Fits 0 e
  Fits level (group e) = Fits 10 e
  Fits level (binary operator lhs rhs) =
      (suc (row_of operator) ≤ level)
      × Fits (suc (row_of operator)) lhs
      × Fits (row_of operator) rhs

  pub AllFit : Trees → Type 0
  AllFit nil = Unit
  AllFit (cons e args) = Fits 10 e × AllFit args

-- How deep unary operators, parentheses and calls are nested in one another
unfoldable mutual
  pub nesting : Tree → ℕ
  nesting (number text) = 0
  nesting (string text) = 0
  nesting (name text) = 0
  nesting (boolean b) = 0
  nesting (call text args) = nesting_arguments args
  nesting (unary operator e) = suc (nesting e)
  nesting (group e) = suc (nesting e)
  nesting (binary operator lhs rhs) = max (nesting lhs) (nesting rhs)

  pub nesting_arguments : Trees → ℕ
  nesting_arguments nil = 0
  nesting_arguments (cons e args) = max (suc (nesting e)) (nesting_arguments args)

module _ {Value E : Type 0} (s : Semantics Value E) where
  -- The value of a tree: operands from left to right, the first error ends it.
  unfoldable mutual
    pub eval : Bool → Tree → Result E Value
    eval evaluate (number text) = s.number evaluate text
    eval evaluate (string text) = s.string evaluate text
    eval evaluate (name text) = s.name evaluate text
    eval evaluate (boolean b) = ok (s.boolean evaluate b)
    eval evaluate (call text args) =
        eval_arguments evaluate args >>= λ values. s.call evaluate text values
    eval evaluate (unary operator e) = eval evaluate e >>= λ value. s.unary operator value
    eval evaluate (group e) = eval evaluate e
    eval evaluate (binary operator lhs rhs) = eval evaluate lhs >>= λ value.
        s.before_rhs operator evaluate value >>= λ rhs_evaluate.
        eval rhs_evaluate rhs >>= λ right. s.binary operator evaluate value right

    pub eval_arguments : Bool → Trees → Result E (List Value)
    eval_arguments evaluate nil = ok []
    eval_arguments evaluate (cons e args) =
        eval evaluate e >>= λ value. eval_arguments evaluate args >>= λ values. ok (value ∷ values)
