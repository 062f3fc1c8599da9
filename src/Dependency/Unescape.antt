-- ===== src/Dependency/Unescape.antt =====
-- A build tool that takes the escapes away reads the path that was written.
use protocyte.Common.{
  ℕ, ◌≡◌, refl, sym, ap, subst, ◌∙◌, Bool, true, false, ◌&&◌, ◌||◌, [], ◌∷◌, ◌++◌, append_assoc, ok,
  ◌>>◌, raise_if, raise_if-ok, >>-eq-ok, ok-injective, Bytes, codes, ◌==◌, ==_iff, if◌then◌else◌,
  any, contains, drop, Bool-cases, inl, inr, ||-false,
}
use protocyte.Dependency.{
  DependencyPath, two_formats, white_space, backslash, colon, replace, has_absolute_windows_drive,
  escaped_value, escape_depfile_path,
}

-- The character behind a backslash or a dollar sign stands for itself.
pub unescape : Bytes → Bytes
unescape [] = []
unescape (c ∷ []) = c ∷ []
unescape (c ∷ d ∷ text) = elim (c == b'\\' || c == b'$') [
  | true ↦ d ∷ unescape text
  | false ↦ c ∷ unescape (d ∷ text)
]

replace-append :
    (old : ℕ) (new front back : Bytes)
    → replace old new (front ++ back) ≡ replace old new front ++ replace old new back
unfolding replace
replace-append old new [] back = refl
replace-append old new (c ∷ front) back = elim (Bool-cases (c == old)) [
  | inl here ↦ rw here (
      ap (◌++◌ new) (replace-append old new front back)
      ∙ sym (append_assoc new (replace old new front) (replace old new back)))
  | inr other ↦ rw other (ap (◌∷◌ c) (replace-append old new front back))
]

abbrev marked : Bytes → Bytes
marked value =
    replace b' ' (codes "\\ ") (replace b'#' (codes "\\#") (replace b'$' (codes "$$") value))

marked-append : (front back : Bytes) → marked (front ++ back) ≡ marked front ++ marked back
marked-append front back =
    ap (λ t. replace b' ' (codes "\\ ") (replace b'#' (codes "\\#") t))
      (replace-append b'$' (codes "$$") front back)
    ∙ ap (replace b' ' (codes "\\ ")) (
        replace-append b'#' (codes "\\#") (replace b'$' (codes "$$") front)
          (replace b'$' (codes "$$") back))
    ∙ replace-append b' ' (codes "\\ ")
        (replace b'#' (codes "\\#") (replace b'$' (codes "$$") front))
        (replace b'#' (codes "\\#") (replace b'$' (codes "$$") back))

escaped_value-append :
    (ninja : Bool) (front back : Bytes)
    → escaped_value false ninja (front ++ back)
      ≡ escaped_value false ninja front ++ escaped_value false ninja back
unfolding escaped_value
escaped_value-append true front back = marked-append front back
escaped_value-append false front back =
    ap (replace b';' (codes "\\;")) (marked-append front back)
    ∙ replace-append b';' (codes "\\;") (marked front) (marked back)

unescape_plain :
    (c : ℕ) (rest : Bytes)
    → (c == b'\\' || c == b'$') ≡ false
    → unescape (c ∷ rest) ≡ c ∷ unescape rest
unfolding unescape
unescape_plain c [] plain = refl
unescape_plain c (d ∷ rest) plain = rw (unescape, plain) refl

-- The text reads back as the character and what follows.
ReadsAs : Bool → Bytes → ℕ → Type 0
ReadsAs ninja rest c = unescape (escaped_value false ninja (c ∷ []) ++ rest) ≡ c ∷ unescape rest

dollar_reads : (ninja : Bool) (rest : Bytes) → ReadsAs ninja rest b'$'
unfolding ReadsAs unescape escaped_value replace
dollar_reads true rest = refl
dollar_reads false rest = refl

hash_reads : (ninja : Bool) (rest : Bytes) → ReadsAs ninja rest b'#'
unfolding ReadsAs unescape escaped_value replace
hash_reads true rest = refl
hash_reads false rest = refl

space_reads : (ninja : Bool) (rest : Bytes) → ReadsAs ninja rest b' '
unfolding ReadsAs unescape escaped_value replace
space_reads true rest = refl
space_reads false rest = refl

semicolon_plain : (rest : Bytes) → unescape (b';' ∷ rest) ≡ b';' ∷ unescape rest
semicolon_plain rest = unescape_plain b';' rest refl

semicolon_reads : (ninja : Bool) (rest : Bytes) → ReadsAs ninja rest b';'
unfolding ReadsAs unescape escaped_value replace
semicolon_reads true rest = semicolon_plain rest
semicolon_reads false rest = refl

unchanged :
    (ninja : Bool) (c : ℕ)
    → (c == b'$') ≡ false
    → (c == b'#') ≡ false
    → (c == b' ') ≡ false
    → (c == b';') ≡ false
    → escaped_value false ninja (c ∷ []) ≡ c ∷ []
unfolding escaped_value replace
unchanged true c dollar hash space semicolon = rw (dollar, replace, hash, replace, space) refl
unchanged false c dollar hash space semicolon =
    rw (dollar, replace, hash, replace, space, replace, semicolon) refl

-- One character and what follows.
character_reads :
    (ninja : Bool) (c : ℕ) (rest : Bytes) → (c == b'\\') ≡ false → ReadsAs ninja rest c
unfolding ReadsAs
character_reads ninja c rest kept = elim (Bool-cases (c == b'$')) [
  | inl here ↦ subst (ReadsAs ninja rest) (sym ((==_iff c b'$').0 here)) (dollar_reads ninja rest)
  | inr dollar ↦ elim (Bool-cases (c == b'#')) [
    | inl here ↦ subst (ReadsAs ninja rest) (sym ((==_iff c b'#').0 here)) (hash_reads ninja rest)
    | inr hash ↦ elim (Bool-cases (c == b' ')) [
      | inl here ↦
          subst (ReadsAs ninja rest) (sym ((==_iff c b' ').0 here)) (space_reads ninja rest)
      | inr space ↦ elim (Bool-cases (c == b';')) [
        | inl here ↦
            subst (ReadsAs ninja rest) (sym ((==_iff c b';').0 here)) (semicolon_reads ninja rest)
        | inr semicolon ↦
            ap (λ t. unescape (t ++ rest)) (unchanged ninja c dollar hash space semicolon)
            ∙ unescape_plain c rest (rw (kept, dollar) refl)
      ]
    ]
  ]
]

unescape-escaped_value :
    (ninja : Bool) (value : Bytes)
    → contains b'\\' value ≡ false
    → unescape (escaped_value false ninja value) ≡ value
unfolding unescape escaped_value replace ReadsAs
unescape-escaped_value true [] lacks_backslash = refl
unescape-escaped_value false [] lacks_backslash = refl
unescape-escaped_value ninja (c ∷ value) lacks_backslash =
    let (kept, rest) = ||-false (c == b'\\') _ lacks_backslash in
    ap unescape (escaped_value-append ninja (c ∷ []) value)
    ∙ character_reads ninja c (escaped_value false ninja value) kept
    ∙ ap (◌∷◌ c) (unescape-escaped_value ninja value rest)

-- A path that is escaped for Ninja or for the other tools but MSBuild is read back by taking the
-- backslashes and dollar signs away that mark a character, so no two paths are written alike.
pub unescape-escape_depfile_path :
    (isalpha : ℕ → Bool) (path : DependencyPath) (ninja : Bool) {text : Bytes}
    → escape_depfile_path isalpha path false ninja ≡ ok text
    → unescape text ≡ path.posix
unfolding escape_depfile_path
unescape-escape_depfile_path isalpha path ninja written =
    let value = path.posix in
    let start = if has_absolute_windows_drive isalpha path.drive value then 2 else 0 in
    let front =
      raise_if (false && ninja) two_formats
      >> raise_if (any (λ c. c == 13 || c == 10 || c == 9) value) white_space in
    let slashes = raise_if (contains b'\\' value) backslash in
    let colons = raise_if (contains b':' (drop start value)) colon in
    let (checks, same) =
      >>-eq-ok (front >> slashes >> colons) (ok (escaped_value false ninja value)) written in
    let (before, _) = >>-eq-ok (front >> slashes) colons checks in
    let (_, lacks_backslash) = >>-eq-ok front slashes before in
    sym (ap unescape (ok-injective same))
    ∙ unescape-escaped_value ninja value
        (raise_if-ok (contains b'\\' value) backslash lacks_backslash)
