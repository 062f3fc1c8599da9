-- ===== src/Expression/Types/Values.antt =====
-- How the operators of `_ExprParser` tell the kinds of their operands, and the types of results.
use protocyte.Common.{
  ℕ, ℤ, Bool, true, false, ◌≡◌, refl, subst, sym, ap, ap₂, ◌∙◌, Option, none, some, Result, ok, err,
  ◌>>=◌, ◌>>◌, raise_if, >>=-eq-ok, ok-injective, some_injective, Bytes,
}
use protocyte.Model.Integer.{IntegerKind}
use protocyte.Expression.Number.{
  Floats, Number, whole, real, NumericKind, integral, float32, float64, EvaluationError,
  common_numeric_kind, convert_numeric_value,
}
use protocyte.Expression.Value.{
  TypedValue, Payload, bool_payload, string_payload, numeric_payload, numeric_value,
  rounded_to_kind, is_infinite, typed_numeric_kind, expect_numeric, expect_integral,
  numeric_operands,
}
use protocyte.Expression.Types.{
  ValueType, bool_type, number_type, payload_type, type_of, kind_of_type, numeric_type, Typed,
}

module _ {F : Type 0} where
  abbrev pub value_of : Payload F → Bytes → ℕ → TypedValue F
  value_of payload cpp_expr precedence = record {
    payload = payload;
    cpp_expr = cpp_expr;
    cpp_precedence = precedence;
  }

  -- The type of a step's result, for each value that the step before it returns
  pub Typed-bind :
      {A : Type 0} (ty : ValueType) (r : Result EvaluationError A)
      (next : A → Result EvaluationError (TypedValue F))
      → ((a : A) → r ≡ ok a → Typed ty (next a))
      → Typed ty (r >>= next)
  Typed-bind ty (err raised) next typed = tt
  Typed-bind ty (ok a) next typed = typed a refl

  pub Typed-check :
      (ty : ValueType) (test : Bool) (raised : EvaluationError)
      (rest : Result EvaluationError (TypedValue F))
      → Typed ty rest
      → Typed ty (raise_if test raised >> rest)
  Typed-check ty true raised rest typed = tt
  Typed-check ty false raised rest typed = typed

  payload_kind :
      (payload : Payload F) (cpp_expr : Bytes) (precedence : ℕ) (ty : ValueType)
      (kind : NumericKind)
      → payload_type payload ≡ some ty
      → typed_numeric_kind (value_of payload cpp_expr precedence) ≡ ok kind
      → kind ≡ kind_of_type ty
  unfolding typed_numeric_kind
  payload_kind (bool_payload b) cpp_expr precedence ty kind typed found =
      let same : bool_type ≡ ty = some_injective typed in
      sym (ok-injective found) ∙ ap kind_of_type same
  payload_kind (string_payload text) cpp_expr precedence ty kind typed found = cc
  payload_kind (numeric_payload (some known) number) cpp_expr precedence ty kind typed found =
      let same : number_type known ≡ ty = some_injective typed in
      sym (ok-injective found) ∙ ap kind_of_type same
  payload_kind (numeric_payload none number) cpp_expr precedence ty kind typed found = cc

  pub kind_of_typed :
      (value : TypedValue F) (ty : ValueType) (kind : NumericKind)
      → type_of value ≡ some ty
      → typed_numeric_kind value ≡ ok kind
      → kind ≡ kind_of_type ty
  kind_of_typed value = payload_kind value.payload value.cpp_expr value.cpp_precedence

  payload_integral :
      (payload : Payload F) (cpp_expr : Bytes) (precedence : ℕ) (ty : ValueType) (n : ℤ)
      (kind : IntegerKind)
      → payload_type payload ≡ some ty
      → expect_integral (value_of payload cpp_expr precedence) ≡ ok (n, kind)
      → integral kind ≡ kind_of_type ty
  unfolding expect_integral
  payload_integral (bool_payload true) cpp_expr precedence ty n kind typed found =
      let same : bool_type ≡ ty = some_injective typed in
      ap (λ p. integral p.1) (sym (ok-injective found)) ∙ ap kind_of_type same
  payload_integral (bool_payload false) cpp_expr precedence ty n kind typed found =
      let same : bool_type ≡ ty = some_injective typed in
      ap (λ p. integral p.1) (sym (ok-injective found)) ∙ ap kind_of_type same
  payload_integral (string_payload text) cpp_expr precedence ty n kind typed found = cc
  payload_integral (numeric_payload none number) cpp_expr precedence ty n kind typed found = cc
  payload_integral (numeric_payload (some known) (real x)) cpp_expr precedence ty n kind typed
        found =
      cc
  payload_integral (numeric_payload (some float32) (whole m)) cpp_expr precedence ty n kind typed
        found =
      cc
  payload_integral (numeric_payload (some float64) (whole m)) cpp_expr precedence ty n kind typed
        found =
      cc
  payload_integral (numeric_payload (some (integral known)) (whole m)) cpp_expr precedence ty n kind
        typed found =
      let same : number_type (integral known) ≡ ty = some_injective typed in
      ap (λ p. integral p.1) (sym (ok-injective found)) ∙ ap kind_of_type same

  pub integral_kind_of :
      (value : TypedValue F) (ty : ValueType) (n : ℤ) (kind : IntegerKind)
      → type_of value ≡ some ty
      → expect_integral value ≡ ok (n, kind)
      → integral kind ≡ kind_of_type ty
  integral_kind_of value = payload_integral value.payload value.cpp_expr value.cpp_precedence

module _ {F : Type 0} (floats : Floats F) where
  -- A number with a kind has the type of that kind.
  pub numeric_value-Typed :
      (value : Number F) (cpp_expr : Option Bytes) (precedence : ℕ) (kind : NumericKind)
      → Typed (number_type kind) (numeric_value floats value cpp_expr precedence (some kind))
  unfolding numeric_value
  numeric_value-Typed value cpp_expr precedence kind =
      Typed-bind (number_type kind) (rounded_to_kind floats (some kind) value) _
        (λ rounded same. Typed-check (number_type kind) (is_infinite floats rounded) _ _ refl)

  pub operands_kind :
      (lhs rhs : TypedValue F) (lt rt : ValueType) (a b : Number F) (kind : NumericKind)
      → type_of lhs ≡ some lt
      → type_of rhs ≡ some rt
      → numeric_operands floats lhs rhs ≡ ok (a, b, kind)
      → kind ≡ common_numeric_kind (kind_of_type lt) (kind_of_type rt)
  unfolding numeric_operands
  operands_kind lhs rhs lt rt a b kind left right found =
      let (x, ex, found1) = >>=-eq-ok (expect_numeric lhs) _ found in
      let (y, ey, found2) = >>=-eq-ok (expect_numeric rhs) _ found1 in
      let (lk, el, found3) = >>=-eq-ok (typed_numeric_kind lhs) _ found2 in
      let (rk, er, found4) = >>=-eq-ok (typed_numeric_kind rhs) _ found3 in
      let common = common_numeric_kind lk rk in
      let (z, ez, found5) = >>=-eq-ok (convert_numeric_value floats x lk common) _ found4 in
      let (w, ew, found6) = >>=-eq-ok (convert_numeric_value floats y rk common) _ found5 in
      sym (ap (λ p. p.2) (ok-injective found6))
      ∙ ap₂ common_numeric_kind (kind_of_typed lhs lt lk left el) (kind_of_typed rhs rt rk right er)

  -- A result in the operands' common kind
  pub in_common_kind :
      (lhs rhs : TypedValue F) (lt rt : ValueType)
      (next : Number F × Number F × NumericKind → Result EvaluationError (TypedValue F))
      → type_of lhs ≡ some lt
      → type_of rhs ≡ some rt
      → ((a b : Number F) (kind : NumericKind) → Typed (number_type kind) (next (a, b, kind)))
      → Typed (numeric_type lt rt) (numeric_operands floats lhs rhs >>= next)
  in_common_kind lhs rhs lt rt next left right typed =
      Typed-bind (numeric_type lt rt) (numeric_operands floats lhs rhs) next (λ operands found.
        let same = operands_kind lhs rhs lt rt operands.0 operands.1 operands.2 left right found in
        subst (λ k. Typed (number_type k) (next operands)) same
          (typed operands.0 operands.1 operands.2))
