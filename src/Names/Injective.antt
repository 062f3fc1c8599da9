-- ===== src/Names/Injective.antt =====
-- `cpp_identifier` gives different names different spellings.
use mathlib.Core.List.{append_cancel_left, append_cancel_right}
use protocyte.Common.{
  ℕ, ◌≡◌, refl, sym, ap, ap₂, ◌∙◌, arith, true, false, [], ◌∷◌, ◌++◌, Bytes, codes, text_in,
  starts_with-append, ◌/◌, ◌%◌,
}
use protocyte.Names.Keywords.{cpp_keywords, keyword_escaped_identifiers}
use protocyte.Names.Identifier.{
  reserved_identifier_prefix, hex_digit, hex, encoded_identifier, needs_encoding, cpp_identifier,
}
use protocyte.Names.Spelling.{
  Spelling, encoded, escaped, plain, Spelling-cpp_identifier, encoded-ne-escaped, escaped_in_table,
  needs_encoding-false,
}

hex_digit-injective : (a b : ℕ) → hex_digit a ≡ hex_digit b → a ≡ b
unfolding hex_digit
hex_digit-injective a b h = ground arith

nibbles-injective : (a b : ℕ) → a / 16 ≡ b / 16 → a % 16 ≡ b % 16 → a ≡ b
nibbles-injective a b p q = omega arith

pub hex-injective : (a b : Bytes) → hex a ≡ hex b → a ≡ b
unfolding hex
hex-injective [] [] h = refl
hex-injective [] (y ∷ b) h = cc
hex-injective (x ∷ a) [] h = cc
hex-injective (x ∷ a) (y ∷ b) h =
    let high : hex_digit (x / 16) ≡ hex_digit (y / 16) = cc in
    let low : hex_digit (x % 16) ≡ hex_digit (y % 16) = cc in
    let rest : hex a ≡ hex b = cc in
    ap₂ ◌∷◌ (nibbles-injective x y (hex_digit-injective _ _ high) (hex_digit-injective _ _ low))
      (hex-injective a b rest)

encoded_identifier-injective : (a b : Bytes) → encoded_identifier a ≡ encoded_identifier b → a ≡ b
unfolding encoded_identifier
encoded_identifier-injective a b h =
    hex-injective a b (append_cancel_left reserved_identifier_prefix (hex a) (hex b) h)

-- A name that is kept is no encoded name and no escaped keyword.
plain-ne-encoded : (a b : Bytes) → needs_encoding b ≡ false → encoded_identifier a ≡ b → ⊥
unfolding encoded_identifier
plain-ne-encoded a b free same =
    let lacks = (needs_encoding-false b free).2 in
    cc (lacks, starts_with-append reserved_identifier_prefix (hex a))

plain-ne-escaped :
    (k b : Bytes)
    → text_in k cpp_keywords ≡ true
    → needs_encoding b ≡ false
    → k ++ codes "_" ≡ b
    → ⊥
plain-ne-escaped k b keyword free same =
    let lacks = (needs_encoding-false b free).3 in
    cc (lacks, ap (λ n. text_in n keyword_escaped_identifiers) same, escaped_in_table k keyword)

Spelling-injective : (a b x y : Bytes) → Spelling a x → Spelling b y → x ≡ y → a ≡ b
Spelling-injective a b x y (encoded p) (encoded q) h =
    encoded_identifier-injective a b (sym p ∙ h ∙ q)
Spelling-injective a b x y (encoded p) (escaped k q) h =
    absurd (encoded-ne-escaped a b k (sym p ∙ h ∙ q))
Spelling-injective a b x y (encoded p) (plain _ _ n q) h =
    absurd (plain-ne-encoded a b n (sym p ∙ h ∙ q))
Spelling-injective a b x y (escaped k p) (encoded q) h =
    absurd (encoded-ne-escaped b a k (sym q ∙ sym h ∙ p))
Spelling-injective a b x y (escaped k p) (escaped l q) h =
    append_cancel_right a b (codes "_") (sym p ∙ h ∙ q)
Spelling-injective a b x y (escaped k p) (plain _ _ n q) h =
    absurd (plain-ne-escaped a b k n (sym p ∙ h ∙ q))
Spelling-injective a b x y (plain _ _ n p) (encoded q) h =
    absurd (plain-ne-encoded b a n (sym q ∙ sym h ∙ p))
Spelling-injective a b x y (plain _ _ n p) (escaped k q) h =
    absurd (plain-ne-escaped b a k n (sym q ∙ sym h ∙ p))
Spelling-injective a b x y (plain _ _ _ p) (plain _ _ _ q) h = sym p ∙ h ∙ q

-- Two schema names, given as their UTF-8 bytes, that `cpp_identifier` spells alike are the same
-- name.
pub cpp_identifier-injective : (a b : Bytes) → cpp_identifier a ≡ cpp_identifier b → a ≡ b
cpp_identifier-injective a b =
    Spelling-injective a b (cpp_identifier a) (cpp_identifier b) (Spelling-cpp_identifier a)
      (Spelling-cpp_identifier b)
