-- ===== src/Expression/Types/Sound.antt =====
-- The types of trees, and that values of src/protocyte/model.py have them.
use protocyte.Common.{
  ℕ, ℤ, pos, Bool, true, false, ◌≡◌, ◌≢◌, ◌≤◌, not, raise_if, ◌>>◌, refl, subst, sym, ap, ap₂, ◌∙◌,
  Option, none, some, List, [], ◌∷◌, ◌++◌, map, Result, ok, err, >>=-eq-ok, ok-injective, Bytes,
  Bool-cases, inl, inr, if◌then◌else◌,
}
use protocyte.Model.Integer.{IntegerKind, literal_integer_kind}
use protocyte.Expression.Syntax.{eof, Semantics}
use protocyte.Expression.Parser.{lift, parse, max_expression_nesting}
use protocyte.Expression.Tree.{
  Tree, Trees, number, string, name, boolean, call, unary, group, binary, nil, cons, written, Fits,
  nesting, eval, eval_arguments,
}
use protocyte.Expression.Tree.Refines.{parse-written}
use protocyte.Expression.Number.{
  Floats, Number, whole, real, NumericKind, integral, float64, EvaluationError, not_finite,
  literal_out_of_range,
}
use protocyte.Expression.Value.{TypedValue, bool_value, string_value, numeric_value}
use protocyte.Expression.Functions.{Mathematics}
use protocyte.Expression.Operate.{rhs_evaluation}
use protocyte.Expression.Literal.{
  Python, is_hexadecimal, number_token_is_floating, parse_int_literal, finite_literal,
  integer_literal, parse_number_token, literal_kind, number_value, parse_string_token,
}
use protocyte.Expression.Evaluate.{as_evaluated, semantics}
use protocyte.Expression.Types.{
  ValueType, bool_type, string_type, number_type, type_of, unary_type, binary_type, call_type,
  Typed,
}
use protocyte.Expression.Types.Values.{Typed-bind, numeric_value-Typed}
use protocyte.Expression.Types.Operators.{apply_binary-Typed, apply_unary-Typed}
use protocyte.Expression.Types.Calls.{type_only_value-Typed, evaluate_function-Typed}

module _ (python : Python) where
  abbrev pub integer_type : Bytes → Option ℕ → NumericKind
  integer_type text none = float64
  integer_type text (some n) = elim (literal_integer_kind (pos n) (is_hexadecimal python text)) [
    | some kind ↦ integral kind
    | none ↦ float64
  ]

  -- The kind of a literal: a point or an exponent makes a double.
  abbrev pub literal_type : Bytes → NumericKind
  literal_type text =
      if number_token_is_floating python text
      then float64
      else integer_type text (parse_int_literal python text)

  module _ (names : Bytes → ValueType) where
    unfoldable mutual
      pub tree_type : Tree → ValueType
      tree_type (number text) = number_type (literal_type text)
      tree_type (string text) = string_type
      tree_type (name text) = names text
      tree_type (boolean b) = bool_type
      tree_type (call text args) = call_type text (tree_types args)
      tree_type (unary operator e) = unary_type operator (tree_type e)
      tree_type (group e) = tree_type e
      tree_type (binary operator lhs rhs) = binary_type operator (tree_type lhs) (tree_type rhs)

      pub tree_types : Trees → List ValueType
      tree_types nil = []
      tree_types (cons e args) = tree_type e ∷ tree_types args

module _ {F : Type 0} (python : Python) (floats : Floats F) (mathematics : Mathematics F)
    (resolve_name : Bytes → Result EvaluationError (TypedValue F)) where
  -- `resolve_name` gives each name values of one type.
  abbrev pub NamesTyped : (Bytes → ValueType) → Type 0
  NamesTyped names =
      (text : Bytes) (value : TypedValue F)
      → resolve_name text ≡ ok value
      → type_of value ≡ some (names text)

  abbrev pub meaning : Semantics (TypedValue F) EvaluationError
  meaning = semantics python floats mathematics resolve_name

  of_result :
      {ty : ValueType} {r : Result EvaluationError (TypedValue F)} {value : TypedValue F}
      → r ≡ ok value
      → Typed ty r
      → type_of value ≡ some ty
  of_result {ty} same typed = subst (Typed ty) same typed

  evaluated-Typed :
      (evaluate : Bool) (value : TypedValue F) (ty : ValueType)
      → type_of value ≡ some ty
      → Typed ty (as_evaluated python floats mathematics resolve_name evaluate value)
  evaluated-Typed true value ty typed = typed
  evaluated-Typed false value ty typed = type_only_value-Typed floats value ty typed

  no_integer :
      (test : Bool) (x : F) (n : ℤ) → (raise_if test not_finite >> ok (real x)) ≢ ok (whole n)
  no_integer true x n same = cc
  no_integer false x n same = cc

  kinded :
      {kind : NumericKind} (known : Option IntegerKind)
      → ◌≡◌ {A = Result EvaluationError NumericKind}
          (elim known [ some k ↦ ok (integral k) | none ↦ err literal_out_of_range ])
          (ok kind)
      → kind ≡ elim known [ some k ↦ integral k | none ↦ float64 ]
  kinded (some k) same = sym (ok-injective same)
  kinded none same = cc

  literal_kind_type :
      (text : Bytes) (value : Number F) (kind : NumericKind)
      → parse_number_token python floats text ≡ ok value
      → literal_kind python floats text value ≡ ok kind
      → kind ≡ literal_type python text
  unfolding parse_number_token
  literal_kind_type text value kind parsed known =
      elim (Bool-cases (number_token_is_floating python text)) [
        | inl floating ↦ rw floating (
            of_float (floats.parse_float text) value (rw (parse_number_token, floating) at parsed)
              known)
        | inr integer ↦ rw integer (
            of_integer (parse_int_literal python text) value
              (rw (parse_number_token, integer) at parsed) known)
      ]
    where
      of_float :
          (x : Option F) (value : Number F)
          → finite_literal python floats x ≡ ok value
          → literal_kind python floats text value ≡ ok kind
          → kind ≡ float64
      of_float none value parsed known = cc
      of_float (some x) (real y) parsed known = sym (ok-injective known)
      of_float (some x) (whole n) parsed known =
          absurd (no_integer (not (floats.float_is_finite x)) x n parsed)

      of_integer :
          (n : Option ℕ) (value : Number F)
          → integer_literal python floats n ≡ ok value
          → literal_kind python floats text value ≡ ok kind
          → kind ≡ integer_type python text n
      of_integer none value parsed known = cc
      of_integer (some n) (real y) parsed known = cc
      of_integer (some n) (whole m) parsed known =
          let same : pos n ≡ m = cc in
          kinded (literal_integer_kind (pos n) (is_hexadecimal python text))
            (rw (sym same) at known)

  number_value-Typed :
      (text : Bytes)
      → Typed (number_type (literal_type python text)) (number_value python floats text)
  unfolding number_value
  number_value-Typed text =
      let target = number_type (literal_type python text) in
      Typed-bind target (parse_number_token python floats text) _ (λ value parsed.
        Typed-bind target (literal_kind python floats text value) _ (λ kind known.
          subst
            (λ k. Typed (number_type k) (numeric_value floats value (some text) 120 (some kind)))
            (literal_kind_type text value kind parsed known)
            (numeric_value-Typed floats value (some text) 120 kind)))

  number-Typed :
      (evaluate : Bool) (text : Bytes)
      → Typed (number_type (literal_type python text)) (meaning.number evaluate text)
  unfolding semantics
  number-Typed evaluate text =
      let target = number_type (literal_type python text) in
      Typed-bind target (number_value python floats text) _ (λ value found.
        evaluated-Typed evaluate value target (of_result found (number_value-Typed text)))

  string-Typed : (evaluate : Bool) (text : Bytes) → Typed string_type (meaning.string evaluate text)
  unfolding semantics string_value
  string-Typed evaluate text =
      Typed-bind string_type (parse_string_token python text) _ (λ value found.
        evaluated-Typed evaluate (string_value value (some text) 120) string_type refl)

  boolean-Typed : (evaluate b : Bool) → type_of (meaning.boolean evaluate b) ≡ some bool_type
  unfolding semantics bool_value
  boolean-Typed true b = refl
  boolean-Typed false b = refl

  name-Typed :
      (names : Bytes → ValueType) (evaluate : Bool) (text : Bytes)
      → NamesTyped names
      → Typed (names text) (meaning.name evaluate text)
  unfolding semantics
  name-Typed names evaluate text named =
      Typed-bind (names text) (resolve_name text) _
        (λ value found. evaluated-Typed evaluate value (names text) (named text value found))

  module _ (names : Bytes → ValueType) (named : NamesTyped names) where
    mutual
      unfolding eval tree_type semantics

      eval-Typed :
          (evaluate : Bool) (e : Tree) → Typed (tree_type python names e) (eval meaning evaluate e)
      eval-Typed evaluate (number text) = number-Typed evaluate text
      eval-Typed evaluate (string text) = string-Typed evaluate text
      eval-Typed evaluate (name text) = name-Typed names evaluate text named
      eval-Typed evaluate (boolean b) = boolean-Typed evaluate b
      eval-Typed evaluate (call text args) =
          Typed-bind (call_type text (tree_types python names args))
            (eval_arguments meaning evaluate args) _
            (λ values found.
              evaluate_function-Typed floats mathematics evaluate text values
                (tree_types python names args) (arguments-Typed evaluate args values found))
      eval-Typed evaluate (unary operator e) =
          Typed-bind (unary_type operator (tree_type python names e)) (eval meaning evaluate e) _
            (λ value found.
              apply_unary-Typed floats operator value (tree_type python names e)
                (of_result found (eval-Typed evaluate e)))
      eval-Typed evaluate (group e) = eval-Typed evaluate e
      eval-Typed evaluate (binary operator lhs rhs) =
          let ty = binary_type operator (tree_type python names lhs) (tree_type python names rhs) in
          Typed-bind ty (eval meaning evaluate lhs) _ (λ l found_l.
            Typed-bind ty (rhs_evaluation floats operator evaluate l) _ (λ flag flagged.
              Typed-bind ty (eval meaning flag rhs) _ (λ r found_r.
                apply_binary-Typed floats operator evaluate l r (tree_type python names lhs)
                  (tree_type python names rhs) (of_result found_l (eval-Typed evaluate lhs))
                  (of_result found_r (eval-Typed flag rhs)))))

      arguments-Typed :
          (evaluate : Bool) (args : Trees) (values : List (TypedValue F))
          → eval_arguments meaning evaluate args ≡ ok values
          → map type_of values ≡ map some (tree_types python names args)
      arguments-Typed evaluate nil values found = rw (sym (ok-injective found)) refl
      arguments-Typed evaluate (cons e args) values found =
          let (value, here, found1) = >>=-eq-ok (eval meaning evaluate e) _ found in
          let (rest, others, found2) = >>=-eq-ok (eval_arguments meaning evaluate args) _ found1 in
          rw (sym (ok-injective found2)) (
            ap₂ ◌∷◌ (of_result here (eval-Typed evaluate e))
              (arguments-Typed evaluate args rest others))

  -- For names whose values each have one type, the value that `parse` returns for the tokens of a tree, which
  -- respects the precedences and is nested at most as deep as the limit, has the family and the numeric
  -- kind that literals, operators, functions and names alone say, whatever the numbers are.
  pub parse-Typed :
      (names : Bytes → ValueType) (e : Tree) (value : TypedValue F)
      → NamesTyped names
      → Fits 10 e
      → nesting e ≤ max_expression_nesting
      → parse meaning (written e ++ eof ∷ []) ≡ ok value
      → type_of value ≡ some (tree_type python names e)
  parse-Typed names e value named fits shallow found =
      of_lifted (eval meaning true e) (eval-Typed names named true e)
        (sym (parse-written meaning e fits shallow) ∙ found)
    where
      of_lifted :
          (r : Result EvaluationError (TypedValue F))
          → Typed (tree_type python names e) r
          → lift r ≡ ok value
          → type_of value ≡ some (tree_type python names e)
      of_lifted (ok x) typed same = ap type_of (sym (ok-injective same)) ∙ typed
      of_lifted (err raised) typed same = cc
