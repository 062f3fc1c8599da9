-- ===== src/Paths/Decode.antt =====
-- A normalized path of which no component was cut can be read back.
use protocyte.Common.{
  le→leb, ℕ, ◌+◌, ◌-◌, ◌*◌, ◌/◌, ◌%◌, ◌≤◌, ◌<◌, ◌≡◌, refl, sym, ap, ap₂, ◌∙◌, arith, Bool, true,
  false, not, ◌&&◌, List, [], ◌∷◌, ◌++◌, map, all, append-nil, Bytes, ltb, ◌==◌, if◌then◌else◌,
  length, split, join, join-split, all-split, ends_with, &&-true,
}
use protocyte.Paths.Segment.{
  max_component_bytes, max_stem_bytes, is_safe_byte, upper_hex_digit, part_of_byte,
  normalized_bytes, normalized_segment, is_reserved_device, normalize_generated_segment,
  normalize_segments, normalize_generated_path,
}
use protocyte.Paths.Safe.{HexDigest, is_byte, split-normalized}

-- The number of an upper-case hexadecimal digit.
hex_value : ℕ → ℕ
hex_value c = if ltb c 58 then c - 48 else c - 55

-- The text that a normalized segment spells: `~HH` stands for one byte.
pub decode : Bytes → Bytes
unfolding hex_value
decode [] = []
decode (c ∷ []) = c ∷ []
decode (c ∷ d ∷ []) = c ∷ decode (d ∷ [])
decode (c ∷ d ∷ e ∷ rest) =
    if c == b'~' then (hex_value d * 16 + hex_value e) ∷ decode rest else c ∷ decode (d ∷ e ∷ rest)

pub decode_path : Bytes → Bytes
unfolding decode
decode_path path = join b'/' (map decode (split b'/' path))

hex_value-upper_hex_digit : (d : ℕ) → d < 16 → hex_value (upper_hex_digit d) ≡ d
unfolding hex_value upper_hex_digit
hex_value-upper_hex_digit d h = ground arith

decode-plain : (b : ℕ) (rest : Bytes) → (b == b'~') ≡ false → decode (b ∷ rest) ≡ b ∷ decode rest
unfolding decode
decode-plain b [] h = refl
decode-plain b (d ∷ []) h = refl
decode-plain b (d ∷ e ∷ rest) h = rw h

decode-part_of_byte :
    (safe : Bool) (b : ℕ) (rest : Bytes)
    → is_byte b ≡ true
    → (safe ≡ true → is_safe_byte b ≡ true)
    → decode (part_of_byte safe b ++ rest) ≡ b ∷ decode rest
unfolding part_of_byte
decode-part_of_byte true b rest small h = decode-plain b rest (not_mark b (h refl))
  where
    not_mark : (c : ℕ) → is_safe_byte c ≡ true → (c == b'~') ≡ false
    not_mark c safe = unfold is_safe_byte in ground arith
decode-part_of_byte false b rest small h =
    let high = hex_value-upper_hex_digit (b / 16) (ground arith) in
    let low = hex_value-upper_hex_digit (b % 16) (omega arith) in
    let whole : hex_value (upper_hex_digit (b / 16)) * 16 + hex_value (upper_hex_digit (b % 16))
        ≡ b =
      omega (arith, high, low) in
    unfold decode in ap (λ c. c ∷ decode rest) whole

decode-normalized_bytes :
    (first last : Bool) (text : Bytes)
    → all is_byte text ≡ true
    → decode (normalized_bytes first last text) ≡ text
unfolding normalized_bytes
decode-normalized_bytes first last [] h = unfold decode in refl
decode-normalized_bytes first last (b ∷ []) h =
    let safe = is_safe_byte b && not first && not last in
    let whole =
      decode-part_of_byte safe b [] (&&-true (is_byte b) true h).0
        (λ p. (&&-true _ (not first) (&&-true (is_safe_byte b && not first) (not last) p).0).0) in
    ap decode (sym (append-nil (part_of_byte safe b))) ∙ whole ∙ (unfold decode in refl)
decode-normalized_bytes first last (b ∷ c ∷ text) h =
    let (small, rest) = &&-true (is_byte b) _ h in
    decode-part_of_byte (is_safe_byte b && not first) b (normalized_bytes false last (c ∷ text))
      small (λ p. (&&-true (is_safe_byte b) (not first) p).0)
    ∙ ap (◌∷◌ b) (decode-normalized_bytes false last (c ∷ text) rest)

-- No component is so long that a digest replaces its end.
abbrev pub IsUncut : List Bytes → Type 0
IsUncut [] = Unit
IsUncut (segment ∷ []) = length (normalized_segment segment) ≤ max_stem_bytes
IsUncut (segment ∷ next ∷ segments) =
    (length (normalized_segment segment) ≤ max_component_bytes) × IsUncut (next ∷ segments)

module _ (sha256_hexdigest : Bytes → Bytes) where
  decode-normalize_generated_segment :
      (bound : ℕ) (segment : Bytes)
      → all is_byte segment ≡ true
      → length (normalized_segment segment) ≤ bound
      → decode (normalize_generated_segment sha256_hexdigest bound segment) ≡ segment
  unfolding normalize_generated_segment
  decode-normalize_generated_segment bound segment small short =
      rw (le→leb (length (normalized_segment segment)) bound short) (
        decode-normalized_bytes (is_reserved_device segment) (ends_with b'.' segment) segment small)

  map-decode-normalize_segments :
      (segments : List Bytes)
      → all (all is_byte) segments ≡ true
      → IsUncut segments
      → map decode (normalize_segments sha256_hexdigest segments) ≡ segments
  unfolding normalize_segments
  map-decode-normalize_segments [] h u = refl
  map-decode-normalize_segments (s ∷ []) h u =
      ap (λ t. t ∷ [])
        (decode-normalize_generated_segment max_stem_bytes s (&&-true (all is_byte s) true h).0 u)
  map-decode-normalize_segments (s ∷ next ∷ segments) h (short, u) =
      let (here, rest) = &&-true (all is_byte s) _ h in
      ap₂ ◌∷◌ (decode-normalize_generated_segment max_component_bytes s here short)
        (map-decode-normalize_segments (next ∷ segments) rest u)

module _ (sha256_hexdigest : Bytes → Bytes) (hashlib : HexDigest sha256_hexdigest) where
  -- For a virtual path of bytes below 256 of which no component is too long, decoding the escapes
  -- of the normalized path gives the virtual path back, so that two such paths never share a
  -- generated file.
  pub decode_path-normalize_generated_path :
      (path : Bytes)
      → all is_byte path ≡ true
      → IsUncut (split b'/' path)
      → decode_path (normalize_generated_path sha256_hexdigest path) ≡ path
  unfolding decode_path normalize_generated_path
  decode_path-normalize_generated_path path small uncut =
      let parts = all-split is_byte b'/' path small in
      rw (split-normalized sha256_hexdigest hashlib path small) (
        ap (join b'/')
          (map-decode-normalize_segments sha256_hexdigest (split b'/' path) parts uncut)
        ∙ join-split b'/' path)
