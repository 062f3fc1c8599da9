-- ===== src/Parameters/Options.antt =====
-- `GeneratorOptions` and its checks in src/protocyte/parameters.py. The numbers of the standard
-- library that have no exact counterpart here, Decimal, float and int of a text, are a parameter.
pub mod Checked
use protocyte.Common.{
  is_empty, is_some, ℕ, ℤ, pos, negsuc, Bool, true, false, not, ◌&&◌, ◌||◌, Option, none, some,
  List, [], ◌∷◌, Result, ok, err, ◌>>=◌, ◌>>◌, raise_if, codes, text_eq, text_in, ltb,
  if◌then◌else◌,
}
use protocyte.Paths.Base.{min_hashed_generated_file_path_bytes}
use protocyte.Parameters.Text.{Text}
use protocyte.Parameters.Prefix.{
  ParameterError, invalid_timeout, invalid_format, empty_clang_format, empty_clang_format_config,
  small_path_budget, negative_directory_budget, off_with_formatter, validate_namespace_prefix,
  validate_reflection_api_macro, validate_virtual_directory_prefix,
}

-- What the code calls of decimal.Decimal, float, math and int.
pub record Numbers : Type 1 where
  pub Decimal : Type 0
  pub decimal : Text → Option Decimal
  pub decimal_is_finite : Decimal → Bool
  pub decimal_is_signed : Decimal → Bool
  pub decimal_is_zero : Decimal → Bool
  pub Float : Type 0
  pub float : Text → Option Float
  pub is_finite : Float → Bool
  pub is_negative : Float → Bool
  pub is_zero : Float → Bool
  pub default_timeout : Float
  pub int : Text → Option ℤ

pub record GeneratorOptions (Float : Type 0) : Type 0 where
  pub emit_runtime : Bool
  pub runtime_prefix : Text
  pub include_prefix : Text
  pub namespace_prefix : Text
  pub reflection_api_macro : Option Text
  pub emit_comments : Bool
  pub format_mode : Text
  pub clang_format : Option Text
  pub clang_format_config : Option Text
  pub formatter_timeout_seconds : Option Float
  pub generated_path_max_bytes : Option ℤ
  pub generated_directory_max_bytes : Option ℤ

-- value == ""
abbrev pub is_empty_text : Option Text → Bool
is_empty_text none = false
is_empty_text (some text) = is_empty text

-- value is not None and value < bound
unfoldable pub is_below : ℕ → Option ℤ → Bool
is_below bound none = false
is_below bound (some (pos n)) = ltb n bound
is_below bound (some (negsuc n)) = true

-- A call whose value is not used.
abbrev pub discard : Result ParameterError Text → Result ParameterError (Unit {0})
discard call = call >>= λ value. ok tt

-- check(value) if value is not None
unfoldable pub check_given :
    (Text → Result ParameterError Text) → Option Text → Result ParameterError (Unit {0})
check_given check none = ok tt
check_given check (some value) = discard (check value)

-- check(value) if value is not empty
unfoldable pub check_nonempty :
    (Text → Result ParameterError Text) → Text → Result ParameterError (Unit {0})
check_nonempty check value = if is_empty value then ok tt else discard (check value)

abbrev pub format_modes : List Text
format_modes = codes "auto" ∷ codes "off" ∷ codes "required" ∷ []

-- self.clang_format is not None or self.clang_format_config is not None
abbrev pub has_formatter : Option Text → Option Text → Bool
has_formatter clang_format config = is_some clang_format || is_some config

module _ (n : Numbers) where
  abbrev pub Options : Type 0
  Options = GeneratorOptions n.Float

  -- The check of the timeout, which turns a timeout of zero into none.
  unfoldable pub checked_timeout : Option n.Float → Result ParameterError (Option n.Float)
  checked_timeout none = ok none
  checked_timeout (some timeout) =
      raise_if (not (n.is_finite timeout) || n.is_negative timeout) invalid_timeout
      >> ok (if n.is_zero timeout then none else some timeout)

  -- `__post_init__` up to the timeout.
  unfoldable pub check_texts : Options → Result ParameterError (Unit {0})
  unfolding check_given check_nonempty text_eq
  check_texts o =
      discard (validate_namespace_prefix o.namespace_prefix)
      >> check_given validate_reflection_api_macro o.reflection_api_macro
      >> discard (validate_virtual_directory_prefix o.runtime_prefix)
      >> check_nonempty validate_virtual_directory_prefix o.include_prefix
      >> raise_if (not (text_in o.format_mode format_modes)) invalid_format
      >> raise_if (is_empty_text o.clang_format) empty_clang_format
      >> raise_if (is_empty_text o.clang_format_config) empty_clang_format_config

  -- `__post_init__` behind the timeout.
  unfoldable pub check_budgets : Options → Result ParameterError (Unit {0})
  unfolding is_below text_eq
  check_budgets o =
      raise_if (is_below min_hashed_generated_file_path_bytes o.generated_path_max_bytes)
        small_path_budget
      >> raise_if (is_below 0 o.generated_directory_max_bytes) negative_directory_budget
      >> raise_if
          (text_eq o.format_mode (codes "off")
            && has_formatter o.clang_format o.clang_format_config)
          off_with_formatter

  abbrev pub with_timeout : Options → Option n.Float → Options
  with_timeout o timeout = record o { formatter_timeout_seconds = timeout }

  -- `__post_init__`: the options it leaves, or where it raises
  unfoldable pub post_init : Options → Result ParameterError Options
  unfolding check_texts checked_timeout check_budgets
  post_init o = check_texts o >> checked_timeout o.formatter_timeout_seconds >>= λ timeout.
      check_budgets o >> ok (with_timeout o timeout)

  -- The property `formatting_required`.
  unfoldable pub formatting_required : Options → Bool
  unfolding text_eq
  formatting_required o =
      text_eq o.format_mode (codes "required") || has_formatter o.clang_format o.clang_format_config
