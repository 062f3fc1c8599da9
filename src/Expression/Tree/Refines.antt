-- ===== src/Expression/Tree/Refines.antt =====
-- `_ExprParser.parse` on the tokens of a tree.
use protocyte.Common.{
  ℕ, zero, suc, ◌≤◌, Bool, true, false, ◌≡◌, refl, ◌∙◌, none, List, [], ◌∷◌, ◌++◌, append_assoc,
  Result, ok, err, ◌>>=◌, Bytes, codes, text_eq, length, length-append, arith,
}
use protocyte.Expression.Syntax.{
  Token, number_token, string_token, ident_token, op_token, eof, UnaryOperator, symbol,
  unary_symbol, unary_operators, match_first, Semantics,
}
use protocyte.Expression.Parser.{
  unexpected_token, peek, lift, ParserOf, with_rest, expect, parse_level, parse_name, parse_primary,
  parse_unary_with, parse_unary, parse, refuse_nested, parse_arguments, max_expression_nesting,
}
use protocyte.Expression.Tree.{
  Tree, Trees, number, string, name, boolean, call, unary, group, binary, nil, cons, written,
  written_arguments, written_further, open_token, close_token, boolean_token, is_word,
  is_identifier, Fits, AllFit, nesting, nesting_arguments, row_of, eval,
}
use protocyte.Expression.Tree.Symbols.{Stops, Stops-close_token, Stops-eof}
use protocyte.Expression.Tree.Words.{match_first-unary_symbol, unmatched_word, not_boolean}
use protocyte.Expression.Tree.Climb.{Reads, Reads-unary, Reads-binary}
use protocyte.Expression.Tree.Calls.{AllParse, name_read}

-- Behind a comma the arguments of a call are written as those behind its parenthesis.
further-le : (args : Trees) → length (written_arguments args) ≤ length (written_further args)
unfolding written
further-le nil = omega arith
further-le (cons e args) = omega arith

module _ {Value E : Type 0} (s : Semantics Value E) (fuel : ℕ) where
  -- A token that is no operator of `_parse_unary` is for `_parse_primary`.
  goes_to_primary :
      (nested_unary nested_or : ParserOf E Value) (evaluate : Bool) (tokens : List Token)
      → match_first unary_symbol unary_operators tokens ≡ none
      → parse_unary_with s fuel nested_unary nested_or evaluate tokens
        ≡ parse_primary s fuel nested_or evaluate tokens
  unfolding parse_unary_with
  goes_to_primary nested_unary nested_or evaluate tokens other = rw (parse_unary_with, other) refl

  goes_to_name :
      (nested_unary nested_or : ParserOf E Value) (evaluate : Bool) (text : Bytes)
      (rest : List Token)
      → is_word text ≡ true
      → is_identifier text ≡ true
      → parse_unary_with s fuel nested_unary nested_or evaluate (ident_token text ∷ rest)
        ≡ parse_name s fuel nested_or evaluate text rest
  unfolding parse_primary
  goes_to_name nested_unary nested_or evaluate text rest word id =
      let (not_true, not_false) = not_boolean text id in
      goes_to_primary nested_unary nested_or evaluate (ident_token text ∷ rest)
        (unmatched_word (ident_token text) rest word)
      ∙ rw (parse_primary, not_true, not_false) refl

  boolean_read :
      (nested_unary nested_or : ParserOf E Value) (evaluate b : Bool) (rest : List Token)
      → parse_unary_with s fuel nested_unary nested_or evaluate (boolean_token b ∷ rest)
        ≡ ok (s.boolean evaluate b, rest)
  unfolding parse_unary_with parse_primary text_eq
  boolean_read nested_unary nested_or evaluate true rest = refl
  boolean_read nested_unary nested_or evaluate false rest = refl

  unary_read :
      (nested_unary nested_or : ParserOf E Value) (operator : UnaryOperator) (evaluate : Bool)
      (tokens rest : List Token) (operand : Result E Value)
      → nested_unary evaluate tokens ≡ with_rest rest operand
      → parse_unary_with s fuel nested_unary nested_or evaluate
          (op_token (unary_symbol operator) ∷ tokens)
        ≡ with_rest rest (operand >>= λ value. s.unary operator value)
  unfolding parse_unary_with
  unary_read nested_unary nested_or operator evaluate tokens rest operand reads =
      rw (parse_unary_with, match_first-unary_symbol operator tokens, reads) (apply operand)
    where
      apply :
          (operand : Result E Value)
          → (with_rest rest operand >>= λ (value, behind).
              with_rest behind (s.unary operator value))
            ≡ with_rest rest (operand >>= λ value. s.unary operator value)
      apply (err raised) = refl
      apply (ok value) = refl

  group_read :
      (nested_unary nested_or : ParserOf E Value) (evaluate : Bool) (tokens rest : List Token)
      (inner : Result E Value)
      → nested_or evaluate tokens ≡ with_rest (close_token ∷ rest) inner
      → parse_unary_with s fuel nested_unary nested_or evaluate (open_token ∷ tokens)
        ≡ with_rest rest inner
  unfolding parse_unary_with parse_primary text_eq
  group_read nested_unary nested_or evaluate tokens rest inner reads = rw reads (finish inner)
    where
      finish :
          (inner : Result E Value)
          → (with_rest (close_token ∷ rest) inner >>= λ (value, behind).
              expect (codes ")") behind >>= λ after. ok (value, after))
            ≡ with_rest rest inner
      finish (err raised) = refl
      finish (ok value) = refl

  number_read :
      (nested_unary nested_or : ParserOf E Value) (evaluate : Bool) (text : Bytes)
      (rest : List Token)
      → is_word text ≡ true
      → parse_unary_with s fuel nested_unary nested_or evaluate (number_token text ∷ rest)
        ≡ with_rest rest (s.number evaluate text)
  unfolding parse_primary
  number_read nested_unary nested_or evaluate text rest word =
      goes_to_primary nested_unary nested_or evaluate (number_token text ∷ rest)
        (unmatched_word (number_token text) rest word)

  string_read :
      (nested_unary nested_or : ParserOf E Value) (evaluate : Bool) (text : Bytes)
      (rest : List Token)
      → is_word text ≡ true
      → parse_unary_with s fuel nested_unary nested_or evaluate (string_token text ∷ rest)
        ≡ with_rest rest (s.string evaluate text)
  unfolding parse_primary
  string_read nested_unary nested_or evaluate text rest word =
      goes_to_primary nested_unary nested_or evaluate (string_token text ∷ rest)
        (unmatched_word (string_token text) rest word)

  no_arguments_read :
      (nested_or : ParserOf E Value) (evaluate : Bool) (text : Bytes) (rest : List Token)
      → parse_name s fuel nested_or evaluate text (open_token ∷ close_token ∷ rest)
        ≡ with_rest rest (s.call evaluate text [])
  unfolding text_eq parse_name parse_arguments
  no_arguments_read nested_or evaluate text rest = refl

  bare_name_read :
      (nested_or : ParserOf E Value) (evaluate : Bool) (text : Bytes) (rest : List Token)
      → Stops 0 rest
      → parse_name s fuel nested_or evaluate text rest ≡ with_rest rest (s.name evaluate text)
  unfolding parse_name
  bare_name_read nested_or evaluate text rest stops = rw (parse_name, stops) refl

  -- The parsers that `_parse_nested` runs with some room left
  abbrev nested_unary_at : ℕ → ParserOf E Value
  nested_unary_at zero = refuse_nested
  nested_unary_at (suc room) = parse_unary s fuel room

  abbrev nested_or_at : ℕ → ParserOf E Value
  nested_or_at zero = refuse_nested
  nested_or_at (suc room) = parse_level s fuel 10 (parse_unary s fuel room)

  at_room :
      (room : ℕ)
      → parse_unary s fuel room ≡ parse_unary_with s fuel (nested_unary_at room) (nested_or_at room)
  unfolding parse_unary
  at_room zero = refl
  at_room (suc room) = refl

  -- A tree is read with the room that its nesting takes, and with fuel for its tokens.
  mutual
    unfolding written eval Fits nesting parse_level

    tree_read :
        (e : Tree) (level room : ℕ)
        → Fits level e
        → nesting e ≤ room
        → suc (length (written e)) ≤ fuel
        → Reads s fuel (parse_unary s fuel room) level e
    tree_read (number text) level room word deep enough =
        Reads-unary s fuel (parse_unary s fuel room) level (number text) enough (λ row. refl)
          (λ evaluate rest stops.
            rw (at_room room)
              (number_read (nested_unary_at room) (nested_or_at room) evaluate text rest word))
    tree_read (string text) level room word deep enough =
        Reads-unary s fuel (parse_unary s fuel room) level (string text) enough (λ row. refl)
          (λ evaluate rest stops.
            rw (at_room room)
              (string_read (nested_unary_at room) (nested_or_at room) evaluate text rest word))
    tree_read (name text) level room (word, id) deep enough =
        Reads-unary s fuel (parse_unary s fuel room) level (name text) enough (λ row. refl)
          (λ evaluate rest stops. rw (at_room room) (
            goes_to_name (nested_unary_at room) (nested_or_at room) evaluate text rest word id
            ∙ bare_name_read (nested_or_at room) evaluate text rest stops))
    tree_read (boolean b) level room fits deep enough =
        Reads-unary s fuel (parse_unary s fuel room) level (boolean b) enough (λ row. refl)
          (λ evaluate rest stops.
            rw (at_room room)
              (boolean_read (nested_unary_at room) (nested_or_at room) evaluate b rest))
    tree_read (call text nil) level room (word, id, fits) deep enough =
        Reads-unary s fuel (parse_unary s fuel room) level (call text nil) enough (λ row. refl)
          (λ evaluate rest stops. rw (at_room room) (
            goes_to_name (nested_unary_at room) (nested_or_at room) evaluate text _ word id
            ∙ no_arguments_read (nested_or_at room) evaluate text rest))
    tree_read (call text (cons e args)) level zero fits deep enough = absurd (omega (arith, deep))
    tree_read (call text (cons e args)) level (suc room) (word, id, fits) deep enough =
        Reads-unary s fuel (parse_unary s fuel (suc room)) level (call text (cons e args)) enough
          (λ row. refl)
          (λ evaluate rest stops. rw (at_room (suc room)) (
            goes_to_name (nested_unary_at (suc room)) (nested_or_at (suc room)) evaluate text _ word
              id
            ∙ name_read s fuel (parse_unary s fuel room) text (cons e args) evaluate rest
                (trees_read (cons e args) room fits deep (omega (arith, enough))) fits
                (omega (arith, enough))))
    tree_read (unary operator e) level zero fits deep enough = absurd (omega (arith, deep))
    tree_read (unary operator e) level (suc room) fits deep enough =
        let below = tree_read e 0 room fits (omega (arith, deep)) (omega (arith, enough)) in
        Reads-unary s fuel (parse_unary s fuel (suc room)) level (unary operator e) enough
          (λ row. refl)
          (λ evaluate rest stops. rw (at_room (suc room)) (
            unary_read (parse_unary s fuel room) (nested_or_at (suc room)) operator evaluate
              (written e ++ rest) rest (eval s evaluate e) (below evaluate rest stops)))
    tree_read (group e) level zero fits deep enough = absurd (omega (arith, deep))
    tree_read (group e) level (suc room) fits deep enough =
        let size = length-append (written e) (close_token ∷ []) in
        let below = tree_read e 10 room fits (omega (arith, deep)) (omega (arith, enough, size)) in
        Reads-unary s fuel (parse_unary s fuel (suc room)) level (group e) enough (λ row. refl)
          (λ evaluate rest stops. rw (at_room (suc room)) (
            rw (append_assoc (written e) (close_token ∷ []) rest) (
              group_read (parse_unary s fuel room) (nested_or_at (suc room)) evaluate
                (written e ++ close_token ∷ rest) rest (eval s evaluate e)
                (below.0 evaluate (close_token ∷ rest) (Stops-close_token rest)))))
    tree_read (binary operator lhs rhs) level room (low, left, right) deep enough =
        let size = length-append (written lhs) (op_token (symbol operator) ∷ written rhs) in
        Reads-binary s fuel (parse_unary s fuel room) level operator lhs rhs enough low
          (tree_read lhs (suc (row_of operator)) room left (omega (arith, deep))
            (omega (arith, enough, size)))
          (tree_read rhs (row_of operator) room right (omega (arith, deep))
            (omega (arith, enough, size)))

    trees_read :
        (args : Trees) (room : ℕ)
        → AllFit args
        → nesting_arguments args ≤ suc room
        → suc (length (written_arguments args)) ≤ fuel
        → AllParse s fuel (parse_unary s fuel room) args
    trees_read nil room fits deep enough = tt
    trees_read (cons e args) room (fits, others) deep enough =
        let size = length-append (written e) (written_further args) in
        (
          (tree_read e 10 room fits (omega (arith, deep)) (omega (arith, enough, size))).0,
          trees_read args room others (omega (arith, deep))
              (omega (arith, enough, size, further-le args)),
        )

module _ {Value E : Type 0} (s : Semantics Value E) where
  -- On the tokens of a tree that respects the precedences and is nested at most as deep as the limit, `parse`
  -- returns the value of the tree, or raises its first error.
  pub parse-written :
      (e : Tree)
      → Fits 10 e
      → nesting e ≤ max_expression_nesting
      → parse s (written e ++ eof ∷ []) ≡ lift (eval s true e)
  unfolding parse parse_level
  parse-written e fits shallow =
      let tokens = written e ++ eof ∷ [] in
      let fuel = suc (length tokens) in
      let size = length-append (written e) (eof ∷ []) in
      let reads = tree_read s fuel e 10 max_expression_nesting fits shallow (omega (arith, size)) in
      rw (reads.0 true (eof ∷ []) (Stops-eof [])) (finish (eval s true e))
    where
      finish :
          (r : Result E Value)
          → (with_rest (eof ∷ []) r >>= λ (value, rest). elim (peek rest) [
            | eof ↦ ok value
            | number_token text ↦ err (unexpected_token (number_token text))
            | string_token text ↦ err (unexpected_token (string_token text))
            | ident_token text ↦ err (unexpected_token (ident_token text))
            | op_token text ↦ err (unexpected_token (op_token text))
          ])
            ≡ lift r
      finish (err raised) = refl
      finish (ok value) = refl
