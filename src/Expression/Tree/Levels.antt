-- ===== src/Expression/Tree/Levels.antt =====
-- The methods for binary operators of `_ExprParser` on the tokens of a tree: how a parser of one
-- level carries over to the next, and what a loop does with the operators on the left of a tree.
use protocyte.Common.{
  ℕ, suc, ◌+◌, ◌-◌, ◌≤◌, Bool, ◌≡◌, refl, sym, ap, ◌∙◌, none, List, ◌∷◌, ◌++◌, append_assoc, Result,
  ok, err, ◌>>=◌, ◌==◌, ==_refl, if◌then◌else◌, arith,
}
use protocyte.Expression.Syntax.{
  Token, op_token, BinaryOperator, symbol, operators, match_first, Semantics,
}
use protocyte.Expression.Parser.{
  lift, Parsed, ParserOf, with_rest, chain_loop, parse_chain, parse_level,
}
use protocyte.Expression.Tree.{Tree, binary, written, eval, row_of}
use protocyte.Expression.Tree.Symbols.{Stops, Stops-symbol, match_first-symbol}

-- The operators of a row that a tree has on its left side
abbrev pub spine : ℕ → Tree → ℕ
spine row (binary operator lhs rhs) = if row_of operator == row then suc (spine row lhs) else 0
spine row _ = 0

module _ {Value E : Type 0} (s : Semantics Value E) (fuel : ℕ)
    (unary_parser : ParserOf E Value) where
  -- The methods up to a level read the tree and give its value.
  abbrev pub Parses : ℕ → Tree → Type 0
  Parses level e =
      (evaluate : Bool) (rest : List Token)
      → Stops level rest
      → parse_level s fuel level unary_parser evaluate (written e ++ rest)
        ≡ with_rest rest (eval s evaluate e)

  -- The loop of a row on `fuel`, behind a value
  abbrev pub loop : ℕ → ℕ → Bool → Value → List Token → Parsed E Value
  loop row n evaluate value rest =
      chain_loop s n (operators row) (parse_level s fuel row unary_parser) evaluate value rest

  -- The loop of a row reads the operators on the left of the tree, and goes on behind it.
  abbrev pub Chains : ℕ → Tree → Type 0
  Chains row e =
      (evaluate : Bool) (rest : List Token) (n : ℕ)
      → Stops row rest
      → (parse_level s fuel row unary_parser evaluate (written e ++ rest) >>= λ (value, behind).
          loop row (spine row e + n) evaluate value behind)
        ≡ (lift (eval s evaluate e) >>= λ value. loop row n evaluate value rest)

  loop_ends :
      (row n : ℕ) (evaluate : Bool) (rest : List Token) (r : Result E Value)
      → match_first symbol (operators row) rest ≡ none
      → (lift r >>= λ value. loop row (suc n) evaluate value rest) ≡ with_rest rest r
  unfolding chain_loop
  loop_ends row n evaluate rest (err raised) stop = refl
  loop_ends row n evaluate rest (ok value) stop = rw stop

  pub Chains→Parses :
      (row : ℕ) (e : Tree) → suc (spine row e) ≤ fuel → Chains row e → Parses (suc row) e
  unfolding parse_level parse_chain
  Chains→Parses row e enough chains evaluate rest (stop, stops) =
      let n = fuel - suc (spine row e) in
      let split : spine row e + suc n ≡ fuel = omega (arith, enough) in
      ap
        (λ f.
          parse_level s fuel row unary_parser evaluate (written e ++ rest) >>= λ (value, behind).
          loop row f evaluate value behind)
        (sym split)
      ∙ chains evaluate rest (suc n) stops
      ∙ loop_ends row n evaluate rest (eval s evaluate e) stop

  loop_begins :
      (row n : ℕ) (evaluate : Bool) (rest : List Token) (r : Result E Value)
      → (with_rest rest r >>= λ (value, behind). loop row n evaluate value behind)
        ≡ (lift r >>= λ value. loop row n evaluate value rest)
  loop_begins row n evaluate rest (err raised) = refl
  loop_begins row n evaluate rest (ok value) = refl

  pub Parses→Chains : (row : ℕ) (e : Tree) → spine row e ≡ 0 → Parses row e → Chains row e
  Parses→Chains row e bare parses evaluate rest n stops =
      let none_left : 0 + n ≡ n = omega arith in
      rw (bare, none_left, parses evaluate rest stops)
        (loop_begins row n evaluate rest (eval s evaluate e))

  rhs_begins :
      (operator : BinaryOperator) (n : ℕ) (evaluate : Bool) (rest : List Token) (value : Value)
      (r : Result E Value)
      → (with_rest rest r >>= λ (right, behind).
          lift (s.binary operator evaluate value right) >>= λ result.
          loop (row_of operator) n evaluate result behind)
        ≡ (lift (r >>= λ right. s.binary operator evaluate value right) >>= λ result.
            loop (row_of operator) n evaluate result rest)
  rhs_begins operator n evaluate rest value (err raised) = refl
  rhs_begins operator n evaluate rest value (ok right) = refl

  -- The right operand of an operator, from what is done before it
  right_operand :
      (operator : BinaryOperator) (rhs : Tree) (n : ℕ) (evaluate : Bool) (rest : List Token)
      (value : Value) (before : Result E Bool)
      → Parses (row_of operator) rhs
      → Stops (row_of operator) rest
      → (lift before >>= λ rhs_evaluate.
          parse_level s fuel (row_of operator) unary_parser rhs_evaluate (written rhs ++ rest)
          >>= λ (right, behind). lift (s.binary operator evaluate value right) >>= λ result.
              loop (row_of operator) n evaluate result behind)
        ≡ (lift (
              before >>= λ rhs_evaluate.
              eval s rhs_evaluate rhs >>= λ right. s.binary operator evaluate value right)
            >>= λ result. loop (row_of operator) n evaluate result rest)
  right_operand operator rhs n evaluate rest value (err raised) parses stops = refl
  right_operand operator rhs n evaluate rest value (ok rhs_evaluate) parses stops =
      rw (parses rhs_evaluate rest stops)
        (rhs_begins operator n evaluate rest value (eval s rhs_evaluate rhs))

  -- One round of the loop, at an operator and its right operand
  loop_round :
      (operator : BinaryOperator) (rhs : Tree) (n : ℕ) (evaluate : Bool) (rest : List Token)
      (left : Result E Value)
      → Parses (row_of operator) rhs
      → Stops (row_of operator) rest
      → (lift left >>= λ value.
          loop
            (row_of operator)
            (suc n)
            evaluate
            value
            (op_token (symbol operator) ∷ written rhs ++ rest))
        ≡ (lift (
              left >>= λ value. s.before_rhs operator evaluate value >>= λ rhs_evaluate.
              eval s rhs_evaluate rhs >>= λ right. s.binary operator evaluate value right)
            >>= λ result. loop (row_of operator) n evaluate result rest)
  unfolding chain_loop
  loop_round operator rhs n evaluate rest (err raised) parses stops = refl
  loop_round operator rhs n evaluate rest (ok value) parses stops =
      rw (chain_loop, match_first-symbol operator (written rhs ++ rest))
        (right_operand operator rhs n evaluate rest value (s.before_rhs operator evaluate value)
          parses stops)

  pub Chains-binary :
      (operator : BinaryOperator) (lhs rhs : Tree)
      → Chains (row_of operator) lhs
      → Parses (row_of operator) rhs
      → Chains (row_of operator) (binary operator lhs rhs)
  unfolding written eval
  Chains-binary operator lhs rhs chains parses evaluate rest n stops =
      let here = op_token (symbol operator) ∷ written rhs in
      let one_more : suc (spine (row_of operator) lhs) + n ≡ spine (row_of operator) lhs + suc n =
        omega arith in
      rw (==_refl (row_of operator), one_more, append_assoc (written lhs) here rest)
        (chains evaluate (here ++ rest) (suc n) (Stops-symbol operator (written rhs ++ rest))
          ∙ loop_round operator rhs n evaluate rest (eval s evaluate lhs) parses stops)
