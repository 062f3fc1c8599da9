-- ===== src/Expression/Tree/Symbols.antt =====
-- What the methods of `_ExprParser` match at the first token behind a tree.
use protocyte.Common.{ℕ, zero, suc, ◌≡◌, refl, none, some, List, ◌∷◌, codes, text_eq}
use protocyte.Expression.Syntax.{
  Token, op_token, eof, BinaryOperator, or_else, and_then, bit_or, bit_xor, bit_and, equal,
  not_equal, less, less_equal, greater, greater_equal, shift_left, shift_right, add, subtract,
  multiply, divide, modulo, symbol, operators, match_token, match_first,
}
use protocyte.Expression.Tree.{row_of, close_token, comma_token}

-- No method up to the level goes on at these tokens, and they open no call.
abbrev pub Stops : ℕ → List Token → Type 0
Stops zero rest = match_token (codes "(") rest ≡ none
Stops (suc level) rest = (match_first symbol (operators level) rest ≡ none) × Stops level rest

pub Stops-zero : (level : ℕ) (rest : List Token) → Stops level rest → Stops 0 rest
Stops-zero zero rest stops = stops
Stops-zero (suc level) rest stops = Stops-zero level rest stops.1

pub Stops-close_token : (rest : List Token) → Stops 10 (close_token ∷ rest)
unfolding text_eq
Stops-close_token rest =
    (refl, (refl, (refl, (refl, (refl, (refl, (refl, (refl, (refl, (refl, refl))))))))))

pub Stops-comma_token : (rest : List Token) → Stops 10 (comma_token ∷ rest)
unfolding text_eq
Stops-comma_token rest =
    (refl, (refl, (refl, (refl, (refl, (refl, (refl, (refl, (refl, (refl, refl))))))))))

pub Stops-eof : (rest : List Token) → Stops 10 (eof ∷ rest)
unfolding text_eq
Stops-eof rest =
    (refl, (refl, (refl, (refl, (refl, (refl, (refl, (refl, (refl, (refl, refl))))))))))

-- The methods below an operator's stop at it.
pub Stops-symbol :
    (operator : BinaryOperator) (rest : List Token)
    → Stops (row_of operator) (op_token (symbol operator) ∷ rest)
unfolding text_eq
Stops-symbol multiply rest = refl
Stops-symbol divide rest = refl
Stops-symbol modulo rest = refl
Stops-symbol add rest = (refl, refl)
Stops-symbol subtract rest = (refl, refl)
Stops-symbol shift_left rest = (refl, (refl, refl))
Stops-symbol shift_right rest = (refl, (refl, refl))
Stops-symbol less rest = (refl, (refl, (refl, refl)))
Stops-symbol less_equal rest = (refl, (refl, (refl, refl)))
Stops-symbol greater rest = (refl, (refl, (refl, refl)))
Stops-symbol greater_equal rest = (refl, (refl, (refl, refl)))
Stops-symbol equal rest = (refl, (refl, (refl, (refl, refl))))
Stops-symbol not_equal rest = (refl, (refl, (refl, (refl, refl))))
Stops-symbol bit_and rest = (refl, (refl, (refl, (refl, (refl, refl)))))
Stops-symbol bit_xor rest = (refl, (refl, (refl, (refl, (refl, (refl, refl))))))
Stops-symbol bit_or rest = (refl, (refl, (refl, (refl, (refl, (refl, (refl, refl)))))))
Stops-symbol and_then rest = (refl, (refl, (refl, (refl, (refl, (refl, (refl, (refl, refl))))))))
Stops-symbol or_else rest =
    (refl, (refl, (refl, (refl, (refl, (refl, (refl, (refl, (refl, refl)))))))))

-- An operator's own method matches it.
pub match_first-symbol :
    (operator : BinaryOperator) (rest : List Token)
    → match_first symbol (operators (row_of operator)) (op_token (symbol operator) ∷ rest)
      ≡ some (operator, rest)
unfolding text_eq
match_first-symbol multiply rest = refl
match_first-symbol divide rest = refl
match_first-symbol modulo rest = refl
match_first-symbol add rest = refl
match_first-symbol subtract rest = refl
match_first-symbol shift_left rest = refl
match_first-symbol shift_right rest = refl
match_first-symbol less rest = refl
match_first-symbol less_equal rest = refl
match_first-symbol greater rest = refl
match_first-symbol greater_equal rest = refl
match_first-symbol equal rest = refl
match_first-symbol not_equal rest = refl
match_first-symbol bit_and rest = refl
match_first-symbol bit_xor rest = refl
match_first-symbol bit_or rest = refl
match_first-symbol and_then rest = refl
match_first-symbol or_else rest = refl
