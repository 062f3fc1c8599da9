-- ===== src/Paths/Safe/Alphabet.antt =====
-- The bytes of a normalized segment, and its last one.
use protocyte.Common.{
  append-nil, not-true, lacks, ends_with-append, ◌∙◌, ℕ, suc, ◌/◌, ◌%◌, ◌<◌, ◌≡◌, refl, subst, ap,
  arith, Bool, true, false, not, ◌&&◌, ◌||◌, [], ◌∷◌, ◌++◌, all, all-append, Bytes, leb, ltb, ◌==◌,
  length, ends_with, &&-true,
}
use protocyte.Paths.Segment.{
  is_safe_byte, upper_byte, upper, upper_hex_digit, part_of_byte, normalized_bytes, digest_of,
}

-- What hashlib documents of `sha256(…).hexdigest()`: 64 lower-case hexadecimal digits.
abbrev pub is_hex_byte : ℕ → Bool
is_hex_byte c = (leb b'0' c && leb c b'9') || (leb b'a' c && leb c b'f')

pub record HexDigest (sha256_hexdigest : Bytes → Bytes) : Type 0 where
  pub size : (text : Bytes) → length (sha256_hexdigest text) ≡ 64
  pub digits : (text : Bytes) → all is_hex_byte (sha256_hexdigest text) ≡ true

-- A safe byte, or the mark of an escape.
abbrev pub is_path_byte : ℕ → Bool
is_path_byte b = is_safe_byte b || b == b'~'

abbrev pub is_byte : ℕ → Bool
is_byte b = ltb b 256

upper_hex_digit_safe : (d : ℕ) → d < 16 → is_path_byte (upper_hex_digit d) ≡ true
unfolding upper_hex_digit is_safe_byte
upper_hex_digit_safe d h = ground arith

upper_hex_digit_no_dot : (d : ℕ) → d < 16 → (upper_hex_digit d == b'.') ≡ false
unfolding upper_hex_digit
upper_hex_digit_no_dot d h = ground arith

part_of_byte_safe :
    (safe : Bool) (b : ℕ)
    → is_byte b ≡ true
    → (safe ≡ true → is_safe_byte b ≡ true)
    → all is_path_byte (part_of_byte safe b) ≡ true
unfolding part_of_byte
part_of_byte_safe true b small h = rw (h refl)
part_of_byte_safe false b small h =
    let high = upper_hex_digit_safe (b / 16) (ground arith) in
    let low = upper_hex_digit_safe (b % 16) (omega arith) in
    rw (high, low) (unfold is_safe_byte in refl)

&&-left : (a b : Bool) → (a && b) ≡ true → a ≡ true
&&-left a b h = (&&-true a b h).0

pub normalized_bytes_safe :
    (first last : Bool) (text : Bytes)
    → all is_byte text ≡ true
    → all is_path_byte (normalized_bytes first last text) ≡ true
unfolding normalized_bytes
normalized_bytes_safe first last [] h = refl
normalized_bytes_safe first last (b ∷ []) h =
    part_of_byte_safe (is_safe_byte b && not first && not last) b (&&-left _ _ h) (λ p.
      &&-left (is_safe_byte b) (not first) (&&-left (is_safe_byte b && not first) (not last) p))
normalized_bytes_safe first last (b ∷ c ∷ text) h =
    let (small, rest) = &&-true (is_byte b) _ h in
    all-append is_path_byte (part_of_byte (is_safe_byte b && not first) b) _
      (part_of_byte_safe (is_safe_byte b && not first) b small
        (λ p. &&-left (is_safe_byte b) (not first) p))
      (normalized_bytes_safe false last (c ∷ text) rest)

-- The digits of a digest in upper case are safe and are no dots.
upper_hex_byte :
    (c : ℕ)
    → is_hex_byte c ≡ true
    → (is_path_byte (upper_byte c) ≡ true) × (not (upper_byte c == b'.') ≡ true)
unfolding upper_byte is_safe_byte
upper_hex_byte c h = ground arith

upper_hex_safe :
    (text : Bytes)
    → all is_hex_byte text ≡ true
    → (all is_path_byte (upper text) ≡ true) × (lacks b'.' (upper text) ≡ true)
unfolding upper
upper_hex_safe [] h = (refl, refl)
upper_hex_safe (c ∷ text) h =
    let (here, rest) = &&-true (is_hex_byte c) _ h in
    let (safe, no_dot) = upper_hex_byte c here in
    let (safe_rest, no_dot_rest) = upper_hex_safe text rest in
    (rw (safe, safe_rest), rw (no_dot, no_dot_rest))

length-upper : (text : Bytes) → length (upper text) ≡ length text
unfolding upper
length-upper [] = refl
length-upper (c ∷ text) = ap suc (length-upper text)

module _ (sha256_hexdigest : Bytes → Bytes) (hashlib : HexDigest sha256_hexdigest) where
  pub length-digest_of : (text : Bytes) → length (digest_of sha256_hexdigest text) ≡ 64
  unfolding digest_of
  length-digest_of text = length-upper (sha256_hexdigest text) ∙ hashlib.size text

  pub digest_of_safe :
      (text : Bytes)
      → (all is_path_byte (digest_of sha256_hexdigest text) ≡ true)
        × (lacks b'.' (digest_of sha256_hexdigest text) ≡ true)
  unfolding digest_of
  digest_of_safe text = upper_hex_safe (sha256_hexdigest text) (hashlib.digits text)

part_of_byte_no_dot :
    (safe : Bool) (b : ℕ)
    → is_byte b ≡ true
    → (safe ≡ true → (b == b'.') ≡ false)
    → ends_with b'.' (part_of_byte safe b) ≡ false
unfolding part_of_byte ends_with
part_of_byte_no_dot true b small h = h refl
part_of_byte_no_dot false b small h = upper_hex_digit_no_dot (b % 16) (omega arith)

part_of_byte_cons :
    (safe : Bool) (b : ℕ) → (c : ℕ) × (rest : Bytes) × (part_of_byte safe b ≡ c ∷ rest)
unfolding part_of_byte
part_of_byte_cons true b = (b, [], refl)
part_of_byte_cons false b = (b'~', upper_hex_digit (b / 16) ∷ upper_hex_digit (b % 16) ∷ [], refl)

ends_behind_part :
    (front : Bytes) (safe : Bool) (b : ℕ) (rest : Bytes)
    → ends_with b'.' (front ++ (part_of_byte safe b ++ rest))
      ≡ ends_with b'.' (part_of_byte safe b ++ rest)
ends_behind_part front safe b rest =
    let (c, more, e) = part_of_byte_cons safe b in
    rw e (ends_with-append b'.' c front (more ++ rest))

-- What is put behind a text that is not empty decides its end.
ends_behind :
    (first last : Bool) (front : Bytes) (b : ℕ) (text : Bytes)
    → ends_with b'.' (front ++ normalized_bytes first last (b ∷ text))
      ≡ ends_with b'.' (normalized_bytes first last (b ∷ text))
unfolding normalized_bytes
ends_behind first last front b [] =
    let safe = is_safe_byte b && not first && not last in
    subst (λ t. ends_with b'.' (front ++ t) ≡ ends_with b'.' t) (append-nil (part_of_byte safe b))
      (ends_behind_part front safe b [])
ends_behind first last front b (d ∷ text) =
    ends_behind_part front (is_safe_byte b && not first) b (normalized_bytes false last (d ∷ text))

-- A segment whose last dot is escaped does not end with a dot.
pub normalized_bytes_no_dot :
    (first : Bool) (text : Bytes)
    → all is_byte text ≡ true
    → ends_with b'.' (normalized_bytes first (ends_with b'.' text) text) ≡ false
unfolding normalized_bytes ends_with
normalized_bytes_no_dot first [] h = refl
normalized_bytes_no_dot first (b ∷ []) h =
    part_of_byte_no_dot (is_safe_byte b && not first && not (b == b'.')) b (&&-left _ _ h)
      (λ p. not-true (b == b'.') (&&-true (is_safe_byte b && not first) _ p).1)
normalized_bytes_no_dot first (b ∷ c ∷ text) h =
    ends_behind false (ends_with b'.' (c ∷ text)) (part_of_byte (is_safe_byte b && not first) b) c
      text
    ∙ normalized_bytes_no_dot false (c ∷ text) (&&-true (is_byte b) _ h).1
