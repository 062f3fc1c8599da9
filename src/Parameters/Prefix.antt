-- ===== src/Parameters/Prefix.antt =====
-- The checks of namespace and directory prefixes and of the reflection macro in
-- src/protocyte/parameters.py.
pub mod Characters
pub mod Directory
use protocyte.Common.{
  contains, is_empty, Bool, true, false, not, ◌&&◌, ◌||◌, List, [], ◌∷◌, Result, ok, err, ◌>>◌,
  raise_if, codes, text_eq, text_in, starts_with, ends_with, any, all, leb, ◌==◌, if◌then◌else◌,
  length, drop, split, before,
}
use protocyte.Names.Identifier.{is_cpp_identifier, has_double_underscore}
use protocyte.Paths.Segment.{is_reserved_device}
use protocyte.Parameters.Words.{namespace_keywords}
use protocyte.Parameters.Text.{Text, strip, is_control, split_scopes}

-- The places at which src/protocyte/parameters.py raises ProtocyteError.
pub data ParameterError : Type 0 where
  not_normalized_namespace control_in_namespace not_portable_namespace : ParameterError
  invalid_macro : ParameterError
  empty_prefix absolute_prefix backslash_in_prefix control_in_prefix : ParameterError
  unsafe_segment spaced_segment unsafe_character : ParameterError
  invalid_timeout empty_timeout : ParameterError
  invalid_format empty_clang_format empty_clang_format_config : ParameterError
  small_path_budget negative_directory_budget off_with_formatter : ParameterError
  empty_key duplicate_key control_in_raw_value spaced_raw_value expected_key_value : ParameterError
  unknown_parameters : ParameterError
  empty_runtime_prefix conflicting_runtime_prefix invalid_runtime invalid_comments : ParameterError
  path_budget_not_integer empty_path_budget : ParameterError
  directory_budget_not_integer empty_directory_budget : ParameterError
  transport_not_alone transport_without_value invalid_hex not_utf8 : ParameterError

-- component != component.strip()
unfoldable pub is_spaced : Text → Bool
unfolding strip text_eq
is_spaced component = not (text_eq component (strip component))

unfoldable pub is_unnormalized : Text → Bool
unfolding is_spaced
is_unnormalized component = is_empty component || is_spaced component || contains b':' component

-- The test at one component of a namespace.
unfoldable pub is_unportable : Text → Bool
unfolding is_cpp_identifier namespace_keywords starts_with has_double_underscore text_eq
is_unportable component =
    not (is_cpp_identifier component)
    || text_in component namespace_keywords
    || starts_with (codes "_") component
    || has_double_underscore component

unfoldable pub validate_namespace_prefix : Text → Result ParameterError Text
unfolding split_scopes is_unnormalized is_unportable
validate_namespace_prefix value =
    let components = split_scopes value in
    if is_empty value
    then ok value
    else (raise_if (any is_unnormalized components) not_normalized_namespace
        >> raise_if (any is_control value) control_in_namespace
        >> raise_if (any is_unportable components) not_portable_namespace
        >> ok value)

-- _REFLECTION_API_MACRO.fullmatch(value)
unfoldable pub is_reflection_macro : Text → Bool
unfolding starts_with
is_reflection_macro value =
    let digits = drop 25 value in
    starts_with (codes "PROTOCYTE_REFLECTION_API_") value
    && length digits == 64
    && all (λ c. (leb b'0' c && leb c b'9') || (leb b'A' c && leb c b'F')) digits

unfoldable pub validate_reflection_api_macro : Text → Result ParameterError Text
unfolding is_reflection_macro
validate_reflection_api_macro value =
    if is_reflection_macro value then ok value else err invalid_macro

-- segment in {"", ".", ".."}
unfoldable pub is_dots : Text → Bool
unfolding text_eq
is_dots segment = is_empty segment || text_eq segment (codes ".") || text_eq segment (codes "..")

-- char in _INVALID_VIRTUAL_PATH_CHARACTERS
unfoldable pub is_invalid_character : Text → Bool
is_invalid_character = any (λ c. contains c (codes "<>:\"\\|?*;"))

unfoldable pub is_unsafe_segment : Text → Bool
unfolding is_invalid_character ends_with is_reserved_device
is_unsafe_segment segment =
    is_invalid_character segment || ends_with b'.' segment || is_reserved_device segment

unfoldable pub validate_virtual_directory_prefix : Text → Result ParameterError Text
unfolding split starts_with is_dots is_spaced is_unsafe_segment
validate_virtual_directory_prefix value =
    let segments = split b'/' value in
    raise_if (is_empty value) empty_prefix
    >> raise_if (starts_with (codes "/") value || contains b':' value) absolute_prefix
    >> raise_if (contains b'\\' value) backslash_in_prefix
    >> raise_if (any is_control value) control_in_prefix
    >> raise_if (any is_dots segments) unsafe_segment
    >> raise_if (any is_spaced segments) spaced_segment
    >> raise_if (any is_unsafe_segment segments) unsafe_character
    >> ok value
