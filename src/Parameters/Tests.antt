-- ===== src/Parameters/Tests.antt =====
-- Tests and worked instances for src/protocyte/parameters.py.
use protocyte.Common.{
  ℕ, ◌+◌, ◌-◌, ◌*◌, ◌≡◌, refl, ℤ, pos, true, false, ◌&&◌, Option, none, some, [], ◌∷◌, ◌++◌, ok,
  err, codes, text_eq, leb, ◌==◌, if◌then◌else◌, all, starts_with,
}
use protocyte.Names.Identifier.{hex}
use protocyte.Parameters.Text.{Text, is_space}
use protocyte.Parameters.Prefix.{
  duplicate_key, unsafe_segment, not_portable_namespace, validate_namespace_prefix,
  validate_virtual_directory_prefix,
}
use protocyte.Parameters.Prefix.Characters.{
  is_namespace_character, validate_namespace_prefix-characters,
}
use protocyte.Parameters.Options.{Numbers, Options}
use protocyte.Parameters.Transport.{
  transport_key, decode_transport_bytes, decode_transport_parameter,
}
use protocyte.Parameters.Transport.Hex.{decode_transport_parameter-hex}
use protocyte.Parameters.Parse.{Values, get_value, is_unknown, values_of, parse_parameter}
use protocyte.Parameters.Parse.Settled.{AreSettled, parse_parameter-AreSettled}
use protocyte.Parameters.Parse.Values.{render_values, values_of-render_values}

-- Whole seconds in decimal digits, for the numbers of the standard library.
seconds_from : ℕ → Text → Option ℕ
seconds_from value [] = some value
seconds_from value (c ∷ text) =
    let more = seconds_from (value * 10 + (c - b'0')) text in
    if leb b'0' c && leb c b'9' then more else none

seconds : Text → Option ℕ
seconds [] = none
seconds (c ∷ text) = seconds_from 0 (c ∷ text)

integer_of : Option ℕ → Option ℤ
integer_of none = none
integer_of (some n) = some (pos n)

abbrev whole_seconds : Numbers
whole_seconds = record {
  Decimal = ℕ;
  decimal = seconds;
  decimal_is_finite = λ n. true;
  decimal_is_signed = λ n. false;
  decimal_is_zero = λ n. n == 0;
  Float = ℕ;
  float = seconds;
  is_finite = λ n. true;
  is_negative = λ n. false;
  is_zero = λ n. n == 0;
  default_timeout = 60;
  int = λ text. integer_of (seconds text);
}

abbrev given : Text
given = codes "runtime=emit, clang_format=tool ,formatter_timeout_seconds=0"

abbrev given_options : Options whole_seconds
given_options = record {
  emit_runtime = true;
  runtime_prefix = codes "protocyte/runtime";
  include_prefix = [];
  namespace_prefix = [];
  reflection_api_macro = none;
  emit_comments = true;
  format_mode = codes "required";
  clang_format = some (codes "tool");
  clang_format_config = none;
  formatter_timeout_seconds = none;
  generated_path_max_bytes = none;
  generated_directory_max_bytes = none;
}

given_parsed : parse_parameter whole_seconds given ≡ ok given_options
unfolding parse_parameter text_eq starts_with seconds seconds_from validate_namespace_prefix
given_parsed = refl

repeated_refused :
    parse_parameter whole_seconds (codes "comments=on,comments=off") ≡ err duplicate_key
unfolding parse_parameter text_eq starts_with
repeated_refused = refl

upward_refused : validate_virtual_directory_prefix (codes "a/../b") ≡ err unsafe_segment
unfolding validate_virtual_directory_prefix text_eq starts_with
upward_refused = refl

keyword_refused : validate_namespace_prefix (codes "acme::class") ≡ err not_portable_namespace
unfolding validate_namespace_prefix text_eq starts_with
keyword_refused = refl

namespace_accepted : validate_namespace_prefix (codes "acme::api") ≡ ok (codes "acme::api")
unfolding validate_namespace_prefix text_eq starts_with
namespace_accepted = refl

-- "é" and a character of four bytes
decoded :
    decode_transport_bytes (0xC3 ∷ 0xA9 ∷ 0xF0 ∷ 0x9F ∷ 0x98 ∷ 0x80 ∷ []) ≡ ok (0xE9 ∷ 0x1F600 ∷ [])
unfolding decode_transport_bytes
decoded = refl

validate_namespace_prefix-characters_example :
    (codes "acme::api" ≡ codes "acme::api")
    × (all is_namespace_character (codes "acme::api") ≡ true)
validate_namespace_prefix-characters_example =
    validate_namespace_prefix-characters (codes "acme::api") namespace_accepted

parse_parameter-AreSettled_example : AreSettled whole_seconds given_options
parse_parameter-AreSettled_example = parse_parameter-AreSettled whole_seconds given given_parsed

decode_transport_parameter-hex_example :
    decode_transport_parameter (transport_key ++ b'=' ∷ hex (codes "a=b,c"))
    ≡ decode_transport_bytes (codes "a=b,c")
decode_transport_parameter-hex_example = decode_transport_parameter-hex (codes "a=b,c") refl

abbrev two_values : Values
two_values = (codes "comments", codes "off") ∷ (codes "format", codes "a=b") ∷ []

values_of-render_values_example : values_of (render_values two_values) ≡ ok two_values
unfolding text_eq is_space get_value is_unknown
values_of-render_values_example = values_of-render_values two_values refl refl refl
