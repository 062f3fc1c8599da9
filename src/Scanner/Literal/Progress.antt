-- ===== src/Scanner/Literal/Progress.antt =====
-- `_decode_string` reads at least nothing and ends: the data behind a literal is no longer than
-- the data before it, and more rounds change nothing.
use protocyte.Common.{
  ==_refl, append-nil, append_assoc, &&-true, length-append, some_injective, all, ℕ, zero, suc, ◌≤◌,
  ◌<◌, ◌≡◌, refl, sym, ap, ◌∙◌, arith, Bool, true, false, not, ◌&&◌, ◌||◌, Option, none, some, List,
  [], ◌∷◌, ◌++◌, Bytes, leb, ltb, ◌==◌, if◌then◌else◌, length, length-drop, take, drop, Bool-cases,
  inl, inr,
}
use protocyte.Scanner.Unicode.{
  is_hex_digit, parse_int, is_trail, join_surrogates, decode_unicode_escape,
}
use protocyte.Scanner.Literal.{
  is_octal_digit, escape_or_byte, hex_or_byte, leading, decode_escape, decode_string_loop,
  decode_string,
}

length-drop-le {ℓ} : {A : Type ℓ} (n : ℕ) (xs : List A) → length (drop n xs) ≤ length xs
length-drop-le n xs = omega (arith, length-drop {ℓ} n xs)

join_surrogates-le : (lead : ℕ) (text : Bytes) → length (join_surrogates lead text).1 ≤ length text
unfolding join_surrogates
join_surrogates-le lead text =
    elim (Bool-cases (leb 0xD800 lead && ltb lead 0xDC00 && is_trail text (take 4 (drop 2 text)))) [
      | inl pair ↦ rw pair (length-drop-le 6 text)
      | inr single ↦ rw single (omega arith)
    ]

decode_unicode_escape-le :
    (kind : ℕ) (text rest encoded : Bytes)
    → decode_unicode_escape kind text ≡ some (rest, encoded)
    → length rest ≤ length text
unfolding decode_unicode_escape
decode_unicode_escape-le kind text rest encoded h =
    let width : ℕ = if kind == b'u' then 4 else 8 in
    let digits = take width text in
    elim (Bool-cases (ltb (length text) width || not (all is_hex_digit digits))) [
      | inl bad ↦ absurd (cc (rw bad at h))
      | inr good ↦
          let pair = some_injective (rw good at h) in
          let same = ap (λ p. p.0) pair in
          rw (← same) (
            omega (
              arith,
              join_surrogates-le (parse_int 16 0 digits) (drop width text),
              length-drop-le {0} width text,
            ))
    ]

-- What is left when an escape that may be refused is not.
chosen-le :
    (o : Option (Bytes × Bytes)) (escaped : ℕ) (text : Bytes)
    → ((rest encoded : Bytes) → o ≡ some (rest, encoded) → length rest ≤ length text)
    → length (escape_or_byte escaped text o).1 ≤ length text
unfolding escape_or_byte
chosen-le none escaped text h = omega arith
chosen-le (some (rest, encoded)) escaped text h = h rest encoded refl

hex_or_byte-le :
    (escaped : ℕ) (text digits : Bytes) → length (hex_or_byte escaped text digits).1 ≤ length text
unfolding hex_or_byte
hex_or_byte-le escaped text [] = omega arith
hex_or_byte-le escaped text (d ∷ digits) = length-drop-le (length (d ∷ digits)) text

pub decode_escape-le :
    (escaped : ℕ) (text : Bytes) → length (decode_escape escaped text).1 ≤ length text
unfolding decode_escape
decode_escape-le escaped text = elim (Bool-cases (escaped == b'x' || escaped == b'X')) [
  | inl hex ↦ rw hex (hex_or_byte-le escaped text (leading is_hex_digit 2 text))
  | inr other ↦ elim (Bool-cases (escaped == b'u' || escaped == b'U')) [
    | inl unicode ↦
        rw (other, unicode)
          (chosen-le (decode_unicode_escape escaped text) escaped text
            (decode_unicode_escape-le escaped text))
    | inr plain ↦ elim (Bool-cases (is_octal_digit escaped)) [
      | inl octal ↦
          rw (other, plain, octal) (length-drop-le (length (leading is_octal_digit 2 text)) text)
      | inr simple ↦ rw (other, plain, simple) (omega arith)
    ]
  ]
]

pub decode_string_loop-le :
    (n quote : ℕ) (capture : Bool) (value text : Bytes)
    → length (decode_string_loop n quote capture value text).0 ≤ length text
unfolding decode_string_loop
decode_string_loop-le zero quote capture value text = omega arith
decode_string_loop-le (suc n) quote capture value [] = omega arith
decode_string_loop-le (suc n) quote capture value (c ∷ []) = elim (Bool-cases (c == b'\\')) [
  | inl back ↦ rw back (omega arith)
  | inr other ↦ elim (Bool-cases (c == quote)) [
    | inl close ↦ rw (other, close) (omega arith)
    | inr plain ↦ rw (other, plain) (omega arith)
  ]
]
decode_string_loop-le (suc n) quote capture value (c ∷ e ∷ text) =
    let (added, rest) = decode_escape e text in
    let skipped = decode_string_loop-le n quote capture value text in
    let decoded = decode_string_loop-le n quote capture (value ++ added) rest in
    let kept =
      decode_string_loop-le n quote capture (if capture then value ++ c ∷ [] else value)
        (e ∷ text) in
    elim (Bool-cases (c == b'\\')) [
      | inl back ↦ rw back (
          by_capture capture _ _ _ (omega (arith, decoded, decode_escape-le e text))
            (omega (arith, skipped)))
      | inr other ↦ elim (Bool-cases (c == quote)) [
        | inl close ↦ rw (other, close) (omega arith)
        | inr plain ↦ rw (other, plain) (omega (arith, kept))
      ]
    ]
  where
    by_capture :
        (b : Bool) (x y : Bytes × Option Bytes) (bound : ℕ)
        → length x.0 ≤ bound
        → length y.0 ≤ bound
        → length (if b then x else y).0 ≤ bound
    by_capture true x y bound p q = p
    by_capture false x y bound p q = q

-- The data behind a literal is no longer than the data behind its opening quote.
pub decode_string-le :
    (quote : ℕ) (capture : Bool) (text : Bytes)
    → length (decode_string quote capture text).0 ≤ length text
unfolding decode_string
decode_string-le quote capture text =
    decode_string_loop-le (suc (length text)) quote capture [] text

-- A byte that is neither the quote nor a backslash.
abbrev pub is_plain : ℕ → ℕ → Bool
is_plain quote c = not (c == quote) && not (c == b'\\')

plain_parts :
    (quote c : ℕ) → is_plain quote c ≡ true → ((c == quote) ≡ false) × ((c == b'\\') ≡ false)
plain_parts quote c h = ground arith

close_step :
    (n quote : ℕ) (capture : Bool) (value rest : Bytes)
    → (quote == b'\\') ≡ false
    → decode_string_loop (suc n) quote capture value (quote ∷ rest) ≡ (rest, some value)
unfolding decode_string_loop
close_step n quote capture value [] q = rw (q, ==_refl quote)
close_step n quote capture value (e ∷ rest) q = rw (q, ==_refl quote)

plain_step :
    (n quote c : ℕ) (value rest : Bytes)
    → is_plain quote c ≡ true
    → decode_string_loop (suc n) quote true value (c ∷ rest)
      ≡ decode_string_loop n quote true (value ++ c ∷ []) rest
unfolding decode_string_loop
plain_step zero quote c value [] h = let (p, q) = plain_parts quote c h in rw (q, p)
plain_step (suc n) quote c value [] h = let (p, q) = plain_parts quote c h in rw (q, p)
plain_step n quote c value (e ∷ rest) h = let (p, q) = plain_parts quote c h in rw (q, p)

-- A literal of plain bytes is decoded to those bytes, and the data behind its closing quote is
-- left.
decode_string_loop-plain :
    (n quote : ℕ) (value name rest : Bytes)
    → (quote == b'\\') ≡ false
    → all (is_plain quote) name ≡ true
    → length name < n
    → decode_string_loop n quote true value (name ++ quote ∷ rest) ≡ (rest, some (value ++ name))
decode_string_loop-plain zero quote value name rest q h k = absurd (omega arith)
decode_string_loop-plain (suc n) quote value [] rest q h k =
    close_step n quote true value rest q ∙ ap (λ v. (rest, some v)) (sym (append-nil value))
decode_string_loop-plain (suc n) quote value (c ∷ name) rest q h k =
    let (here, more) = &&-true (is_plain quote c) _ h in
    plain_step n quote c value (name ++ quote ∷ rest) here
    ∙ decode_string_loop-plain n quote (value ++ c ∷ []) name rest q more (omega arith)
    ∙ ap (λ v. (rest, some v)) (append_assoc value (c ∷ []) name)

pub decode_string-plain :
    (quote : ℕ) (name rest : Bytes)
    → (quote == b'\\') ≡ false
    → all (is_plain quote) name ≡ true
    → decode_string quote true (name ++ quote ∷ rest) ≡ (rest, some name)
unfolding decode_string
decode_string-plain quote name rest q h =
    decode_string_loop-plain (suc (length (name ++ quote ∷ rest))) quote [] name rest q h
      (omega (arith, length-append {0} name (quote ∷ rest)))
