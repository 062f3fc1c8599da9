-- ===== src/Expression/Types/Arguments.antt =====
-- The kinds of the numeric arguments of functions: `_function_numeric_argument` of
-- src/protocyte/model.py.
use protocyte.Common.{
  ℕ, ℤ, ◌≡◌, refl, subst, sym, ap, ap₂, ◌∙◌, none, some, List, [], ◌∷◌, map, Result, ok, err, ◌>>=◌,
  >>=-eq-ok, ok-injective, some_injective, Bytes,
}
use protocyte.Model.Integer.{NumberError, operand_out_of_range, normalize_integer}
use protocyte.Expression.Number.{
  Floats, Number, whole, real, NumericKind, integral, float32, float64, EvaluationError,
  argument_out_of_range,
}
use protocyte.Expression.Value.{TypedValue, Payload, bool_payload, string_payload, numeric_payload}
use protocyte.Expression.Functions.{
  argument_in, function_numeric_argument, real_result_kind, numeric_arguments, kinds_of,
  kind_of_arguments, common_of_kinds,
}
use protocyte.Expression.Call.{single_argument}
use protocyte.Expression.Types.{
  ValueType, bool_type, number_type, payload_type, type_of, kind_of_type, Typed, first_kind,
  real_kind, common_kind,
}
use protocyte.Expression.Types.Values.{Typed-bind}

module _ {F : Type 0} where
  argument_in_kind :
      (number n : Number F) (known kind : NumericKind)
      → argument_in number known ≡ ok (n, kind)
      → kind ≡ known
  argument_in_kind (whole m) n (integral known) kind found =
      checked (normalize_integer operand_out_of_range m known) found
    where
      checked :
          (r : Result NumberError ℤ)
          → ◌≡◌ {A = Result EvaluationError (Number F × NumericKind)}
              (elim r [
                | ok value ↦ ok (whole value, integral known)
                | err raised ↦ err argument_out_of_range
              ])
              (ok (n, kind))
          → kind ≡ integral known
      checked (ok value) found = ap (λ p. p.1) (sym (ok-injective found))
      checked (err raised) found = cc
  argument_in_kind (real x) n (integral known) kind found = cc
  argument_in_kind number n float32 kind found = ap (λ p. p.1) (sym (ok-injective found))
  argument_in_kind number n float64 kind found = ap (λ p. p.1) (sym (ok-injective found))

  payload_argument :
      (payload : Payload F) (cpp_expr : Bytes) (precedence : ℕ) (ty : ValueType) (n : Number F)
      (kind : NumericKind)
      → payload_type payload ≡ some ty
      → function_numeric_argument
          (record { payload = payload; cpp_expr = cpp_expr; cpp_precedence = precedence })
        ≡ ok (n, kind)
      → kind ≡ kind_of_type ty
  unfolding function_numeric_argument
  payload_argument (bool_payload b) cpp_expr precedence ty n kind typed found =
      let same : bool_type ≡ ty = some_injective typed in
      ap (λ p. p.1) (sym (ok-injective found)) ∙ ap kind_of_type same
  payload_argument (string_payload text) cpp_expr precedence ty n kind typed found = cc
  payload_argument (numeric_payload none number) cpp_expr precedence ty n kind typed found = cc
  payload_argument (numeric_payload (some known) number) cpp_expr precedence ty n kind typed found =
      let same : number_type known ≡ ty = some_injective typed in
      argument_in_kind number n known kind found ∙ ap kind_of_type same

  pub argument-Typed :
      (value : TypedValue F) (ty : ValueType) (n : Number F) (kind : NumericKind)
      → type_of value ≡ some ty
      → function_numeric_argument value ≡ ok (n, kind)
      → kind ≡ kind_of_type ty
  argument-Typed value = payload_argument value.payload value.cpp_expr value.cpp_precedence

  pub first-Typed :
      (value : TypedValue F) (args : List (TypedValue F)) (ty : ValueType) (types : List ValueType)
      → map type_of (value ∷ args) ≡ map some (ty ∷ types)
      → (type_of value ≡ some ty) × (map type_of args ≡ map some types)
  first-Typed value args ty types typed = (cc, cc)

module _ {F : Type 0} (floats : Floats F) where
  arguments_kinds :
      (args : List (TypedValue F)) (types : List ValueType) (values : List (Number F × NumericKind))
      → map type_of args ≡ map some types
      → numeric_arguments floats args ≡ ok values
      → kinds_of floats values ≡ map kind_of_type types
  arguments_kinds [] [] values typed found = rw (sym (ok-injective found)) refl
  arguments_kinds [] (ty ∷ types) values typed found = cc
  arguments_kinds (value ∷ args) [] values typed found = cc
  arguments_kinds (value ∷ args) (ty ∷ types) values typed found =
      let (here, others) = first-Typed value args ty types typed in
      let ((n, kind), eq, found1) = >>=-eq-ok (function_numeric_argument value) _ found in
      let (rest, eqs, found2) = >>=-eq-ok (numeric_arguments floats args) _ found1 in
      rw (sym (ok-injective found2)) (
        ap₂ ◌∷◌ (argument-Typed value ty n kind here eq)
          (arguments_kinds args types rest others eqs))

  common_kinds :
      (values : List (Number F × NumericKind)) (types : List ValueType)
      → kinds_of floats values ≡ map kind_of_type types
      → kind_of_arguments floats values ≡ common_kind types
  common_kinds [] [] same = refl
  common_kinds [] (ty ∷ types) same = cc
  common_kinds ((n, kind) ∷ values) [] same = cc
  common_kinds ((n, kind) ∷ values) (ty ∷ types) same =
      ap₂ common_of_kinds (ap (head_or kind) same) (ap tail_of same)
    where
      head_or : NumericKind → List NumericKind → NumericKind
      head_or kind [] = kind
      head_or kind (k ∷ ks) = k

      tail_of : List NumericKind → List NumericKind
      tail_of [] = []
      tail_of (k ∷ ks) = ks

  pub result_kind_real : (kind : NumericKind) → real_result_kind floats kind ≡ real_kind kind
  result_kind_real float32 = refl
  result_kind_real float64 = refl
  result_kind_real (integral kind) = refl

  -- A function of one number whose result has a kind told by the argument's
  pub of_single :
      (args : List (TypedValue F)) (types : List ValueType) (kind_for : NumericKind → NumericKind)
      (next : Number F × NumericKind → Result EvaluationError (TypedValue F))
      → map type_of args ≡ map some types
      → ((n : Number F) (kind : NumericKind) → Typed (number_type (kind_for kind)) (next (n, kind)))
      → Typed (number_type (kind_for (first_kind types))) (single_argument floats args >>= next)
  of_single [] types kind_for next typed goes_on = tt
  of_single (arg ∷ next_arg ∷ args) types kind_for next typed goes_on = tt
  of_single (arg ∷ []) [] kind_for next typed goes_on = cc
  of_single (arg ∷ []) (ty ∷ types) kind_for next typed goes_on =
      let here = (first-Typed arg [] ty types typed).0 in
      Typed-bind (number_type (kind_for (kind_of_type ty))) (function_numeric_argument arg) next
        (λ operand found.
          subst (λ k. Typed (number_type (kind_for k)) (next operand))
            (argument-Typed arg ty operand.0 operand.1 here found) (goes_on operand.0 operand.1))

  -- The kind of "min" and "max", of at least two arguments
  pub of_several :
      (args : List (TypedValue F)) (types : List ValueType)
      (next : List (Number F × NumericKind) → Result EvaluationError (TypedValue F))
      → map type_of args ≡ map some types
      → ((values : List (Number F × NumericKind))
          → Typed (number_type (kind_of_arguments floats values)) (next values))
      → Typed (number_type (common_kind types)) (numeric_arguments floats args >>= next)
  of_several args types next typed goes_on =
      Typed-bind (number_type (common_kind types)) (numeric_arguments floats args) next
        (λ values found.
          subst (λ k. Typed (number_type k) (next values))
            (common_kinds values types (arguments_kinds args types values typed found))
            (goes_on values))
