-- ===== src/Parameters/Parse.antt =====
-- `parse_parameter` of src/protocyte/parameters.py: the values of the parameter's parts, and the
-- options that they make.
pub mod Settled
pub mod Values
use protocyte.Common.{
  contains, is_empty, is_some, ℤ, Bool, true, false, not, ◌&&◌, ◌||◌, Option, none, some, List, [],
  ◌∷◌, ◌++◌, Result, ok, err, ◌>>=◌, ◌>>◌, raise_if, codes, text_eq, text_in, starts_with, any,
  if◌then◌else◌, split, before, after,
}
use protocyte.Parameters.Text.{Text, strip, is_control}
use protocyte.Parameters.Prefix.{
  ParameterError, empty_key, duplicate_key, control_in_raw_value, spaced_raw_value,
  expected_key_value, unknown_parameters, empty_runtime_prefix, conflicting_runtime_prefix,
  invalid_runtime, invalid_comments, invalid_format, empty_clang_format, empty_clang_format_config,
  off_with_formatter, empty_timeout, invalid_timeout, path_budget_not_integer, empty_path_budget,
  directory_budget_not_integer, empty_directory_budget, validate_virtual_directory_prefix,
}
use protocyte.Parameters.Options.{
  Numbers, GeneratorOptions, Options, is_empty_text, format_modes, has_formatter, post_init,
}
use protocyte.Parameters.Transport.{decode_transport_parameter}

-- dict[str, str] in the order of insertion
abbrev pub Values : Type 0
Values = List (Text × Text)

-- values.get(key)
unfoldable pub get_value : Text → Values → Option Text
unfolding text_eq
get_value key [] = none
get_value key ((other, value) ∷ values) =
    if text_eq key other then some value else get_value key values

-- values.get(key, default)
unfoldable pub get_or : Text → Text → Values → Text
unfolding get_value
get_or key default values = elim (get_value key values) [ none ↦ default | some value ↦ value ]

-- prefix_parameter is not None
unfoldable pub is_prefix_parameter : Text → Text → Bool
unfolding text_eq starts_with
is_prefix_parameter key value =
    (text_eq key (codes "runtime") && starts_with (codes "emit:") value)
    || text_eq key (codes "runtime_prefix")
    || text_eq key (codes "include_prefix")
    || text_eq key (codes "namespace_prefix")
    || text_eq key (codes "_protocyte_reflection_api_macro")

-- The round at a part with "=", from the key on.
unfoldable pub add_value : Text → Text → Values → Result ParameterError Values
unfolding strip get_value is_prefix_parameter text_eq
add_value key raw_value values =
    let value = strip raw_value in
    let strict = is_prefix_parameter key value in
    raise_if (is_empty key) empty_key
    >> raise_if (is_some (get_value key values)) duplicate_key
    >> raise_if (strict && any is_control raw_value) control_in_raw_value
    >> raise_if (strict && not (text_eq raw_value value)) spaced_raw_value
    >> ok (values ++ (key, value) ∷ [])

-- One round of the loop over the parts.
unfoldable pub parse_part : Text → Values → Result ParameterError Values
unfolding before after strip add_value
parse_part raw_part values =
    if is_empty (strip raw_part)
    then ok values
    else if not (contains b'=' (strip raw_part))
    then err expected_key_value
    else add_value (strip (before b'=' raw_part)) (after b'=' raw_part) values

unfoldable pub parse_parts : List Text → Values → Result ParameterError Values
unfolding parse_part
parse_parts [] values = ok values
parse_parts (raw_part ∷ parts) values = parse_part raw_part values >>= parse_parts parts

unfoldable pub known_parameters : List Text
known_parameters =
    codes "runtime"
    ∷ codes "runtime_prefix"
    ∷ codes "include_prefix"
    ∷ codes "namespace_prefix"
    ∷ codes "comments"
    ∷ codes "format"
    ∷ codes "clang_format"
    ∷ codes "clang_format_config"
    ∷ codes "formatter_timeout_seconds"
    ∷ codes "_protocyte_reflection_api_macro"
    ∷ codes "_protocyte_generated_path_max_bytes"
    ∷ codes "_protocyte_generated_directory_max_bytes"
    ∷ []

unfoldable pub is_unknown : Text × Text → Bool
unfolding known_parameters text_eq
is_unknown (key, value) = not (text_in key known_parameters)

-- emit_runtime and runtime_prefix
unfoldable pub runtime_of : Values → Result ParameterError (Bool × Text)
unfolding get_value get_or starts_with after text_eq
runtime_of values =
    let runtime = get_or (codes "runtime") (codes "omit") values in
    let prefix = get_or (codes "runtime_prefix") (codes "protocyte/runtime") values in
    let suffix = after b':' runtime in
    if starts_with (codes "emit:") runtime
    then (raise_if (is_empty suffix) empty_runtime_prefix
        >> raise_if
            (is_some (get_value (codes "runtime_prefix") values) && not (text_eq prefix suffix))
            conflicting_runtime_prefix
        >> ok (true, suffix))
    else if text_eq runtime (codes "emit")
    then ok (true, prefix)
    else if text_eq runtime (codes "omit")
    then ok (false, prefix)
    else err invalid_runtime

-- include_prefix, checked only if it is given
unfoldable pub include_of : Option Text → Result ParameterError Text
unfolding validate_virtual_directory_prefix
include_of none = ok []
include_of (some prefix) = validate_virtual_directory_prefix prefix

-- runtime_prefix, behind the check of the comments' value
unfoldable pub runtime_prefix_of : Text → Text → Result ParameterError Text
unfolding validate_virtual_directory_prefix text_eq
runtime_prefix_of comments prefix =
    raise_if (not (text_in comments (codes "on" ∷ codes "off" ∷ []))) invalid_comments
    >> validate_virtual_directory_prefix prefix

-- format_mode, with the checks of the formatter's values
unfoldable pub format_of : Text → Option Text → Option Text → Result ParameterError Text
unfolding text_eq
format_of format clang_format config =
    raise_if (not (text_in format format_modes)) invalid_format
    >> raise_if (is_empty_text clang_format) empty_clang_format
    >> raise_if (is_empty_text config) empty_clang_format_config
    >> raise_if (text_eq format (codes "off") && has_formatter clang_format config)
        off_with_formatter
    >> ok (if has_formatter clang_format config then codes "required" else format)

-- The loop runs over no part when the parameter is empty.
unfoldable pub values_of : Text → Result ParameterError Values
unfolding split parse_parts is_unknown
values_of parameter =
    parse_parts (if is_empty parameter then [] else split b',' parameter) [] >>= λ values.
    raise_if (any is_unknown values) unknown_parameters >> ok values

module _ (n : Numbers) where
  unfoldable pub parse_formatter_timeout_seconds : Text → Result ParameterError (Option n.Float)
  parse_formatter_timeout_seconds raw_value = elim (n.decimal raw_value) [
    | none ↦ err invalid_timeout
    | some exact_timeout ↦
        if not (n.decimal_is_finite exact_timeout) || n.decimal_is_signed exact_timeout
        then err invalid_timeout
        else if n.decimal_is_zero exact_timeout
        then ok none
        else elim (n.float raw_value) [
          | none ↦ err invalid_timeout
          | some timeout ↦
              if not (n.is_finite timeout) || n.is_negative timeout || n.is_zero timeout
              then err invalid_timeout
              else ok (some timeout)
        ]
  ]

  unfoldable pub timeout_of : Option Text → Result ParameterError (Option n.Float)
  unfolding parse_formatter_timeout_seconds
  timeout_of none = ok (some n.default_timeout)
  timeout_of (some raw) =
      if is_empty raw then err empty_timeout else parse_formatter_timeout_seconds raw

  -- int(raw) if raw, with the errors of a budget
  unfoldable pub budget_of :
      ParameterError → ParameterError → Option Text → Result ParameterError (Option ℤ)
  budget_of not_integer empty none = ok none
  budget_of not_integer empty (some raw) =
      if is_empty raw
      then err empty
      else elim (n.int raw) [ none ↦ err not_integer | some budget ↦ ok (some budget) ]

  -- From the dictionary to the options, before the checks of the constructor.
  unfoldable pub options_of : Values → Result ParameterError (Options n)
  unfolding runtime_of include_of get_value get_or timeout_of budget_of format_of runtime_prefix_of
      text_eq
  options_of values =
      let comments = get_or (codes "comments") (codes "on") values in
      let format = get_or (codes "format") (codes "auto") values in
      let clang = get_value (codes "clang_format") values in
      let config = get_value (codes "clang_format_config") values in
      runtime_of values >>= λ (emit, runtime).
      runtime_prefix_of comments runtime >>= λ runtime_prefix.
      include_of (get_value (codes "include_prefix") values) >>= λ include.
      format_of format clang config >>= λ mode.
      timeout_of (get_value (codes "formatter_timeout_seconds") values) >>= λ timeout.
      budget_of path_budget_not_integer empty_path_budget
        (get_value (codes "_protocyte_generated_path_max_bytes") values)
      >>= λ path_budget.
          budget_of directory_budget_not_integer empty_directory_budget
            (get_value (codes "_protocyte_generated_directory_max_bytes") values)
          >>= λ directory_budget. ok (record {
            emit_runtime = emit;
            runtime_prefix = runtime_prefix;
            include_prefix = include;
            namespace_prefix = get_or (codes "namespace_prefix") [] values;
            reflection_api_macro = get_value (codes "_protocyte_reflection_api_macro") values;
            emit_comments = text_eq comments (codes "on");
            format_mode = mode;
            clang_format = clang;
            clang_format_config = config;
            formatter_timeout_seconds = timeout;
            generated_path_max_bytes = path_budget;
            generated_directory_max_bytes = directory_budget;
          })

  unfoldable pub parse_parameter : Text → Result ParameterError (Options n)
  unfolding decode_transport_parameter values_of options_of post_init
  parse_parameter parameter = decode_transport_parameter parameter >>= λ decoded.
      values_of decoded >>= λ values. options_of values >>= λ options. post_init n options
