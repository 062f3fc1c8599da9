-- ===== src/Expression/Tree/Words.antt =====
-- What `_parse_unary`, `_parse_primary` and the loop over arguments match at a tree's first token.
use protocyte.Common.{
  ℕ, Bool, true, false, not, ◌||◌, ◌≡◌, refl, ◌∙◌, none, some, List, [], ◌∷◌, ◌++◌, append_assoc,
  Bytes, codes, text_eq, arith,
}
use protocyte.Expression.Syntax.{
  Token, number_token, string_token, ident_token, op_token, UnaryOperator, logical_not, complement,
  plus, minus, text_of, symbol, unary_symbol, unary_operators, match_token, match_first,
}
use protocyte.Expression.Tree.{
  Tree, number, string, name, boolean, call, unary, group, binary, written, is_word, is_identifier,
  Fits, boolean_token,
}

pub match_first-unary_symbol :
    (operator : UnaryOperator) (rest : List Token)
    → match_first unary_symbol unary_operators (op_token (unary_symbol operator) ∷ rest)
      ≡ some (operator, rest)
unfolding text_eq
match_first-unary_symbol logical_not rest = refl
match_first-unary_symbol complement rest = refl
match_first-unary_symbol plus rest = refl
match_first-unary_symbol minus rest = refl

any_of_five :
    (a b c d e : Bool)
    → not (a || (b || (c || (d || (e || false))))) ≡ true
    → (a ≡ false) × (b ≡ false) × (c ≡ false) × (d ≡ false) × (e ≡ false)
any_of_five a b c d e h = ground arith

no_match :
    (text : Bytes) (token : Token) (rest : List Token)
    → text_eq (text_of token) text ≡ false
    → match_token text (token ∷ rest) ≡ none
no_match text token rest other = rw (match_token, other) refl

first_fails :
    {A : Type 0} (spelling : A → Bytes) (a : A) (table : List A) (tokens : List Token)
    → match_token (spelling a) tokens ≡ none
    → match_first spelling (a ∷ table) tokens ≡ match_first spelling table tokens
first_fails spelling a table tokens fails = rw (match_first, fails) refl

tests_of_word :
    (text : Bytes)
    → is_word text ≡ true
    → (text_eq text (codes "!") ≡ false)
      × (text_eq text (codes "~") ≡ false)
      × (text_eq text (codes "+") ≡ false)
      × (text_eq text (codes "-") ≡ false)
      × (text_eq text (codes ")") ≡ false)
tests_of_word text word =
    any_of_five (text_eq text (codes "!")) (text_eq text (codes "~")) (text_eq text (codes "+"))
      (text_eq text (codes "-")) (text_eq text (codes ")")) word

pub unmatched_word :
    (token : Token) (rest : List Token)
    → is_word (text_of token) ≡ true
    → match_first unary_symbol unary_operators (token ∷ rest) ≡ none
unmatched_word token rest word =
    let (a, b, c, d, e) = tests_of_word (text_of token) word in
    fails logical_not (complement ∷ plus ∷ minus ∷ []) a
    ∙ fails complement (plus ∷ minus ∷ []) b
    ∙ fails plus (minus ∷ []) c
    ∙ fails minus [] d
  where
    fails :
        (operator : UnaryOperator) (table : List UnaryOperator)
        → text_eq (text_of token) (unary_symbol operator) ≡ false
        → match_first unary_symbol (operator ∷ table) (token ∷ rest)
          ≡ match_first unary_symbol table (token ∷ rest)
    fails operator table other =
        first_fails unary_symbol operator table (token ∷ rest)
          (no_match (unary_symbol operator) token rest other)

unmatched_close :
    (token : Token) (rest : List Token)
    → is_word (text_of token) ≡ true
    → match_token (codes ")") (token ∷ rest) ≡ none
unmatched_close token rest word =
    no_match (codes ")") token rest (tests_of_word (text_of token) word).4

any_of_two : (a b : Bool) → not (a || (b || false)) ≡ true → (a ≡ false) × (b ≡ false)
any_of_two a b h = ground arith

pub not_boolean :
    (text : Bytes)
    → is_identifier text ≡ true
    → (text_eq text (codes "true") ≡ false) × (text_eq text (codes "false") ≡ false)
not_boolean text h = any_of_two (text_eq text (codes "true")) (text_eq text (codes "false")) h

pub unmatched_boolean :
    (b : Bool) (rest : List Token)
    → match_first unary_symbol unary_operators (boolean_token b ∷ rest) ≡ none
unfolding text_eq
unmatched_boolean true rest = refl
unmatched_boolean false rest = refl

close_boolean :
    (b : Bool) (rest : List Token) → match_token (codes ")") (boolean_token b ∷ rest) ≡ none
unfolding text_eq
close_boolean true rest = refl
close_boolean false rest = refl

close_unary :
    (operator : UnaryOperator) (rest : List Token)
    → match_token (codes ")") (op_token (unary_symbol operator) ∷ rest) ≡ none
unfolding text_eq
close_unary logical_not rest = refl
close_unary complement rest = refl
close_unary plus rest = refl
close_unary minus rest = refl

-- No tree begins with a closing parenthesis.
pub match_token-written :
    (level : ℕ) (e : Tree) (rest : List Token)
    → Fits level e
    → match_token (codes ")") (written e ++ rest) ≡ none
unfolding written Fits
match_token-written level (number text) rest fits = unmatched_close (number_token text) rest fits
match_token-written level (string text) rest fits = unmatched_close (string_token text) rest fits
match_token-written level (name text) rest (word, id) = unmatched_close (ident_token text) rest word
match_token-written level (boolean b) rest fits = close_boolean b rest
match_token-written level (call text args) rest (word, id, fits) =
    unmatched_close (ident_token text) _ word
match_token-written level (unary operator e) rest fits = close_unary operator _
match_token-written level (group e) rest fits = unfold text_eq in refl
match_token-written level (binary operator lhs rhs) rest (tight, left, right) =
    rw (append_assoc (written lhs) (op_token (symbol operator) ∷ written rhs) rest)
      (match_token-written _ lhs _ left)
