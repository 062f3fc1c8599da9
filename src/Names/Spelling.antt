-- ===== src/Names/Spelling.antt =====
-- The three ways in which `cpp_identifier` spells a name, and facts about the keyword tables.
use protocyte.Common.{
  ◌≡◌, refl, arith, Bool, true, false, not, ◌||◌, List, [], ◌∷◌, ◌++◌, map, inl, inr, Bytes, codes,
  text_eq, text_eq_sound, text_eq_refl, text_in, starts_with, starts_with-append, all, all-text_in,
  Bool-cases, not-true,
}
use protocyte.Names.Keywords.{cpp_keywords, keyword_escaped_identifiers}
use protocyte.Names.Identifier.{
  reserved_identifier_prefix, is_cpp_identifier, has_double_underscore, encoded_identifier, hex,
  needs_encoding, cpp_identifier, is_portable_identifier,
}

pub data Spelling (name out : Bytes) : Type 0 where
  encoded : out ≡ encoded_identifier name → Spelling name out
  escaped : text_in name cpp_keywords ≡ true → out ≡ name ++ codes "_" → Spelling name out
  plain :
      is_cpp_identifier name ≡ true
      → text_in name cpp_keywords ≡ false
      → needs_encoding name ≡ false
      → out ≡ name
      → Spelling name out

-- Every name is spelled in one of the three ways.
pub Spelling-cpp_identifier : (name : Bytes) → Spelling name (cpp_identifier name)
unfolding cpp_identifier
Spelling-cpp_identifier name = elim (Bool-cases (is_cpp_identifier name)) [
  | inr bad ↦ Spelling.encoded (rw bad)
  | inl good ↦ elim (Bool-cases (text_in name cpp_keywords)) [
    | inl keyword ↦ Spelling.escaped keyword (rw (good, keyword))
    | inr free ↦ elim (Bool-cases (needs_encoding name)) [
      | inl needs ↦ Spelling.encoded (rw (good, free, needs))
      | inr needless ↦ Spelling.plain good free needless (rw (good, free, needless))
    ]
  ]
]

-- A keyword with an underscore is portable and has not the prefix of the encoded names.
abbrev pub is_safe_escape : Bytes → Bool
is_safe_escape k = is_portable_identifier (k ++ codes "_")

keywords_escape : all is_safe_escape cpp_keywords ≡ true
unfolding is_portable_identifier text_eq
keywords_escape = refl

abbrev lacks_prefix_escaped : Bytes → Bool
lacks_prefix_escaped k = not (starts_with reserved_identifier_prefix (k ++ codes "_"))

keywords_lack_prefix_escaped : all lacks_prefix_escaped cpp_keywords ≡ true
unfolding starts_with cpp_keywords
keywords_lack_prefix_escaped = refl

abbrev lacks_prefix : Bytes → Bool
lacks_prefix k = not (starts_with reserved_identifier_prefix k)

keywords_lack_prefix : all lacks_prefix cpp_keywords ≡ true
unfolding starts_with cpp_keywords
keywords_lack_prefix = refl

pub is_safe_escape_of_keyword :
    (k : Bytes) → text_in k cpp_keywords ≡ true → is_safe_escape k ≡ true
is_safe_escape_of_keyword k = all-text_in is_safe_escape k cpp_keywords keywords_escape

pub encoded-ne-escaped :
    (a k : Bytes) → text_in k cpp_keywords ≡ true → encoded_identifier a ≡ k ++ codes "_" → ⊥
unfolding encoded_identifier
encoded-ne-escaped a k keyword same =
    let lacks =
      all-text_in lacks_prefix_escaped k cpp_keywords keywords_lack_prefix_escaped keyword in
    cc (not-true _ lacks, starts_with-append reserved_identifier_prefix (hex a))

-- No encoded name is a keyword.
pub encoded-not-keyword : (a : Bytes) → text_in (encoded_identifier a) cpp_keywords ≡ false
unfolding encoded_identifier
encoded-not-keyword a = elim (Bool-cases (text_in (encoded_identifier a) cpp_keywords)) [
  | inl keyword ↦
      let lacks =
        all-text_in lacks_prefix (encoded_identifier a) cpp_keywords keywords_lack_prefix keyword in
      cc (not-true _ lacks, starts_with-append reserved_identifier_prefix (hex a))
  | inr free ↦ free
]

text_in-map_escape :
    (k : Bytes) (table : List Bytes)
    → text_in k table ≡ true
    → text_in (k ++ codes "_") (map (λ t. t ++ codes "_") table) ≡ true
text_in-map_escape k [] found = cc
text_in-map_escape k (t ∷ table) found = elim (Bool-cases (text_eq k t)) [
  | inl same ↦ rw (text_eq_sound k t same, text_eq_refl)
  | inr other ↦ ground (arith, text_in-map_escape k table (rw other at found))
]

pub escaped_in_table :
    (k : Bytes)
    → text_in k cpp_keywords ≡ true
    → text_in (k ++ codes "_") keyword_escaped_identifiers ≡ true
unfolding keyword_escaped_identifiers
escaped_in_table k = text_in-map_escape k cpp_keywords

four :
    (a b c d : Bool)
    → (a || b || c || d) ≡ false
    → (a ≡ false) × (b ≡ false) × (c ≡ false) × (d ≡ false)
four a b c d h = ground arith

-- The four tests that a kept name passes.
pub needs_encoding-false :
    (name : Bytes)
    → needs_encoding name ≡ false
    → (starts_with (codes "_") name ≡ false)
      × (has_double_underscore name ≡ false)
      × (starts_with reserved_identifier_prefix name ≡ false)
      × (text_in name keyword_escaped_identifiers ≡ false)
unfolding needs_encoding
needs_encoding-false name h =
    four (starts_with (codes "_") name) (has_double_underscore name)
      (starts_with reserved_identifier_prefix name) (text_in name keyword_escaped_identifiers) h
