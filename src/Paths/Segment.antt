-- ===== src/Paths/Segment.antt =====
-- `normalize_generated_path` and `_normalize_generated_segment` of src/protocyte/paths.py, over
-- UTF-8 bytes. The digest of hashlib is the parameter `sha256_hexdigest`.
use Prim.Native.String.{String}
use protocyte.Common.{
  ℕ, ◌+◌, ◌-◌, ◌/◌, ◌%◌, Bool, true, false, not, ◌&&◌, ◌||◌, List, [], ◌∷◌, ◌++◌, map, Bytes, codes,
  text_in, text_eq, leb, ltb, ◌==◌, if◌then◌else◌, length, take, split, join, before, ends_with,
}

abbrev pub max_component_bytes : ℕ
max_component_bytes = 255

abbrev pub generated_file_suffix : Bytes
generated_file_suffix = codes ".protocyte.hpp"

abbrev pub digest_bytes : ℕ
digest_bytes = 64

abbrev pub max_stem_bytes : ℕ
max_stem_bytes = max_component_bytes - length generated_file_suffix

-- _SAFE_GENERATED_PATH_BYTES
unfoldable pub is_safe_byte : ℕ → Bool
is_safe_byte b =
    (leb b'A' b && leb b b'Z')
    || (leb b'a' b && leb b b'z')
    || (leb b'0' b && leb b b'9')
    || b == b'.'
    || b == b'_'
    || b == b'-'

reserved_texts : List String
reserved_texts =
    "CON" ∷ "PRN" ∷ "AUX" ∷ "NUL" ∷ "COM1" ∷ "COM2" ∷ "COM3" ∷ "COM4" ∷ "COM5" ∷ "COM6" ∷ "COM7"
    ∷ "COM8" ∷ "COM9" ∷ "LPT1" ∷ "LPT2" ∷ "LPT3" ∷ "LPT4" ∷ "LPT5" ∷ "LPT6" ∷ "LPT7" ∷ "LPT8"
    ∷ "LPT9" ∷ []

-- _WINDOWS_RESERVED_PATH_NAMES
unfoldable pub windows_reserved_path_names : List Bytes
unfolding reserved_texts
windows_reserved_path_names = map codes reserved_texts

-- str.upper() of ASCII bytes. No other character has an upper case that spells a reserved name.
unfoldable pub upper_byte : ℕ → ℕ
upper_byte c = if leb b'a' c && leb c b'z' then c - 32 else c

unfoldable pub upper : Bytes → Bytes
unfolding upper_byte
upper = map upper_byte

-- segment.split(".", 1)[0].upper() in _WINDOWS_RESERVED_PATH_NAMES
unfoldable pub is_reserved_device : Bytes → Bool
unfolding windows_reserved_path_names upper before text_eq
is_reserved_device segment = text_in (upper (before b'.' segment)) windows_reserved_path_names

unfoldable pub upper_hex_digit : ℕ → ℕ
upper_hex_digit d = if ltb d 10 then b'0' + d else b'A' + (d - 10)

-- chr(byte) if safe else f"~{byte:02X}"
unfoldable pub part_of_byte : Bool → ℕ → Bytes
unfolding upper_hex_digit
part_of_byte true b = b ∷ []
part_of_byte false b = b'~' ∷ upper_hex_digit (b / 16) ∷ upper_hex_digit (b % 16) ∷ []

-- The loop over the bytes: the first byte is escaped if `escape_first`, the last if
-- `escape_last_dot`.
unfoldable pub normalized_bytes : Bool → Bool → Bytes → Bytes
unfolding part_of_byte is_safe_byte
normalized_bytes escape_first escape_last_dot [] = []
normalized_bytes escape_first escape_last_dot (b ∷ []) =
    part_of_byte (is_safe_byte b && not escape_first && not escape_last_dot) b
normalized_bytes escape_first escape_last_dot (b ∷ c ∷ bytes) =
    part_of_byte (is_safe_byte b && not escape_first) b
    ++ normalized_bytes false escape_last_dot (c ∷ bytes)

unfoldable pub normalized_segment : Bytes → Bytes
unfolding normalized_bytes is_reserved_device ends_with
normalized_segment segment =
    normalized_bytes (is_reserved_device segment) (ends_with b'.' segment) segment

module _ (sha256_hexdigest : Bytes → Bytes) where
  unfoldable pub digest_of : Bytes → Bytes
  unfolding upper
  digest_of text = upper (sha256_hexdigest text)

  unfoldable pub normalize_generated_segment : ℕ → Bytes → Bytes
  unfolding normalized_segment digest_of
  normalize_generated_segment max_bytes segment =
      let normalized = normalized_segment segment in
      if leb (length normalized) max_bytes
      then normalized
      else take (max_bytes - length (digest_of segment) - 1) normalized ++ b'~' ∷ digest_of segment

  -- The generator over the segments: the last one reserves room for the suffix.
  unfoldable pub normalize_segments : List Bytes → List Bytes
  unfolding normalize_generated_segment
  normalize_segments [] = []
  normalize_segments (segment ∷ []) = normalize_generated_segment max_stem_bytes segment ∷ []
  normalize_segments (segment ∷ next ∷ segments) =
      normalize_generated_segment max_component_bytes segment ∷ normalize_segments (next ∷ segments)

  unfoldable pub normalize_generated_path : Bytes → Bytes
  unfolding normalize_segments split join
  normalize_generated_path path = join b'/' (normalize_segments (split b'/' path))
