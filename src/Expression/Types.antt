-- ===== src/Expression/Types.antt =====
-- The types of the expressions of src/protocyte/model.py: the family and the numeric kind that the
-- value of a tree has, told from its literals, operators and names.
pub mod Values
pub mod Binary
pub mod Operators
pub mod Arguments
pub mod Functions
pub mod Calls
pub mod Sound
use protocyte.Common.{
  ℕ, Bool, true, false, ◌||◌, ◌≡◌, Option, none, some, List, [], ◌∷◌, map, Result, ok, err, ◌>>=◌,
  Bytes,
}
use protocyte.Model.Integer.{IntegerKind, int32, uint32, common_integer_kind}
use protocyte.Expression.Syntax.{
  BinaryOperator, or_else, and_then, bit_or, bit_xor, bit_and, equal, not_equal, less, less_equal,
  greater, greater_equal, shift_left, shift_right, add, subtract, multiply, divide, modulo,
  UnaryOperator, logical_not, complement, plus, minus,
}
use protocyte.Expression.Number.{
  Number, NumericKind, integral, float32, float64, EvaluationError, known_kind, common_numeric_kind,
}
use protocyte.Expression.Value.{TypedValue, Payload, bool_payload, string_payload, numeric_payload}
use protocyte.Expression.Functions.{common_of_kinds}
use protocyte.Expression.Casts.{
  ConstantKind, bool_kind, string_kind, number_kind, scalar_cast_kind, lookup_name,
}
use protocyte.Expression.Call.{
  FunctionName, len_function, substr_function, starts_with_function, pow_function, abs_function,
  min_function, max_function, real_function, rounding_function, function_table,
}

pub data ValueType : Type 0 where
  bool_type string_type : ValueType
  number_type : NumericKind → ValueType

-- A number without a kind has no type here.
abbrev pub payload_type : {F : Type 0} → Payload F → Option ValueType
payload_type (bool_payload b) = some bool_type
payload_type (string_payload text) = some string_type
payload_type (numeric_payload (some kind) number) = some (number_type kind)
payload_type (numeric_payload none number) = none

abbrev pub type_of : {F : Type 0} → TypedValue F → Option ValueType
type_of value = payload_type value.payload

-- Booleans count as integers of 32 bits; texts are no operands of numeric operators.
abbrev pub kind_of_type : ValueType → NumericKind
kind_of_type bool_type = integral int32
kind_of_type string_type = integral int32
kind_of_type (number_type kind) = kind

abbrev pub integer_kind_of : NumericKind → IntegerKind
integer_kind_of (integral kind) = kind
integer_kind_of float32 = int32
integer_kind_of float64 = int32

abbrev pub numeric_type : ValueType → ValueType → ValueType
numeric_type lhs rhs = number_type (common_numeric_kind (kind_of_type lhs) (kind_of_type rhs))

abbrev pub bitwise_type : ValueType → ValueType → ValueType
bitwise_type lhs rhs =
    let left = integer_kind_of (kind_of_type lhs) in
    let right = integer_kind_of (kind_of_type rhs) in
    number_type (integral (known_kind (common_integer_kind left right) left))

abbrev pub add_type : ValueType → ValueType → ValueType
add_type string_type rhs = string_type
add_type bool_type rhs = numeric_type bool_type rhs
add_type (number_type kind) rhs = numeric_type (number_type kind) rhs

abbrev pub binary_type : BinaryOperator → ValueType → ValueType → ValueType
binary_type or_else lhs rhs = bool_type
binary_type and_then lhs rhs = bool_type
binary_type bit_or lhs rhs = bitwise_type lhs rhs
binary_type bit_xor lhs rhs = bitwise_type lhs rhs
binary_type bit_and lhs rhs = bitwise_type lhs rhs
binary_type equal lhs rhs = bool_type
binary_type not_equal lhs rhs = bool_type
binary_type less lhs rhs = bool_type
binary_type less_equal lhs rhs = bool_type
binary_type greater lhs rhs = bool_type
binary_type greater_equal lhs rhs = bool_type
binary_type shift_left lhs rhs = number_type (kind_of_type lhs)
binary_type shift_right lhs rhs = number_type (kind_of_type lhs)
binary_type add lhs rhs = add_type lhs rhs
binary_type subtract lhs rhs = numeric_type lhs rhs
binary_type multiply lhs rhs = numeric_type lhs rhs
binary_type divide lhs rhs = numeric_type lhs rhs
binary_type modulo lhs rhs = numeric_type lhs rhs

abbrev pub unary_type : UnaryOperator → ValueType → ValueType
unary_type logical_not value = bool_type
unary_type complement value = number_type (kind_of_type value)
unary_type plus value = number_type (kind_of_type value)
unary_type minus value = number_type (kind_of_type value)

-- What a result says of its type: an error nothing
abbrev pub Typed : {F : Type 0} → ValueType → Result EvaluationError (TypedValue F) → Type 0
Typed ty (err raised) = Unit
Typed ty (ok value) = type_of value ≡ some ty

abbrev pub constant_type : ConstantKind → ValueType
constant_type bool_kind = bool_type
constant_type string_kind = string_type
constant_type (number_kind kind) = number_type kind

abbrev pub first_kind : List ValueType → NumericKind
first_kind [] = integral int32
first_kind (ty ∷ types) = kind_of_type ty

-- CONSTANT_KIND_FLOAT of floats of 32 bits, CONSTANT_KIND_DOUBLE of everything else
abbrev pub real_kind : NumericKind → NumericKind
real_kind float32 = float32
real_kind float64 = float64
real_kind (integral kind) = float64

abbrev pub common_kind : List ValueType → NumericKind
common_kind [] = integral int32
common_kind (ty ∷ types) = common_of_kinds (kind_of_type ty) (map kind_of_type types)

abbrev pub function_result : FunctionName → List ValueType → ValueType
function_result len_function types = number_type (integral uint32)
function_result substr_function types = string_type
function_result starts_with_function types = bool_type
function_result pow_function types = number_type float64
function_result abs_function types = number_type (first_kind types)
function_result min_function types = number_type (common_kind types)
function_result max_function types = number_type (common_kind types)
function_result real_function types = number_type (real_kind (first_kind types))
function_result rounding_function types = number_type (real_kind (first_kind types))

abbrev pub named_result : Option FunctionName → List ValueType → ValueType
named_result none types = bool_type
named_result (some function) types = function_result function types

abbrev pub call_type : Bytes → List ValueType → ValueType
call_type name types = elim (scalar_cast_kind name) [
  | some kind ↦ constant_type kind
  | none ↦ named_result (lookup_name name function_table) types
]
