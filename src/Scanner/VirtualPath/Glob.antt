-- ===== src/Scanner/VirtualPath/Glob.antt =====
-- The pattern of a path matches that path and no other.
use protocyte.Common.{
  ℕ, ◌≡◌, refl, sym, ap₂, ◌∙◌, arith, Bool, true, false, ◌||◌, some, some_injective, [], ◌∷◌, any,
  Bytes, ◌==◌, Bool-cases, inl, inr, ◌↔◌, subst,
}
use protocyte.Scanner.VirtualPath.{is_unsafe, pattern_of, cmake_glob_pattern}

-- A character with a meaning of its own in a glob expression.
abbrev pub is_meta : ℕ → Bool
is_meta c = c == b'[' || c == b'*' || c == b'?'

-- Glob matching on the expressions that occur: a class of one character, or a character that
-- stands for itself.
pub data Matches : Bytes → Bytes → Type 0 where
  end : Matches [] []
  one_of :
      (c : ℕ) {pattern_ path : Bytes}
      → Matches pattern_ path
      → Matches (b'[' ∷ c ∷ b']' ∷ pattern_) (c ∷ path)
  itself :
      (c : ℕ) {pattern_ path : Bytes}
      → is_meta c ≡ false
      → Matches pattern_ path
      → Matches (c ∷ pattern_) (c ∷ path)

-- What is a class in `replacement`.
abbrev is_bracketed : ℕ → Bool
is_bracketed c = c == b'[' || c == b']' || c == b'*' || c == b'?' || c == b'$'

meta-bracketed : (c : ℕ) → is_bracketed c ≡ false → is_meta c ≡ false
meta-bracketed c h = ground arith

pattern_of-Matches : (path : Bytes) → Matches (pattern_of path) path
unfolding pattern_of
pattern_of-Matches [] = end
pattern_of-Matches (c ∷ path) = elim (Bool-cases (is_bracketed c)) [
  | inl class ↦ rw class (one_of c (pattern_of-Matches path))
  | inr plain ↦ rw plain (itself c (meta-bracketed c plain) (pattern_of-Matches path))
]

pattern_of-nil : pattern_of [] ≡ []
unfolding pattern_of
pattern_of-nil = refl

-- The two forms of a replacement, in front of what follows.
pattern_of-class :
    (d : ℕ) (path : Bytes)
    → is_bracketed d ≡ true
    → pattern_of (d ∷ path) ≡ b'[' ∷ d ∷ b']' ∷ pattern_of path
unfolding pattern_of
pattern_of-class d path h = rw h

pattern_of-itself :
    (d : ℕ) (path : Bytes) → is_bracketed d ≡ false → pattern_of (d ∷ path) ≡ d ∷ pattern_of path
unfolding pattern_of
pattern_of-itself d path h = rw h

not_open : (d : ℕ) → is_bracketed d ≡ false → d ≡ b'[' → ⊥
not_open d h e = ground arith

not_meta : (c : ℕ) → is_meta c ≡ false → c ≡ b'[' → ⊥
not_meta c h e = ground arith

Matches-unique :
    (glob path other : Bytes) → glob ≡ pattern_of path → Matches glob other → other ≡ path
Matches-unique glob [] other e end = refl
Matches-unique glob [] other e (one_of c m) = absurd (cc (e, pattern_of-nil))
Matches-unique glob [] other e (itself c h m) = absurd (cc (e, pattern_of-nil))
Matches-unique glob (d ∷ path) other e end = elim (Bool-cases (is_bracketed d)) [
  | inl class ↦ absurd (cc (e, pattern_of-class d path class))
  | inr plain ↦ absurd (cc (e, pattern_of-itself d path plain))
]
Matches-unique glob (d ∷ path) other e (one_of c {pattern_ = g} m) =
    elim (Bool-cases (is_bracketed d)) [
      | inl class ↦
          let same = e ∙ pattern_of-class d path class in
          let here : c ≡ d = cc in
          let rest : g ≡ pattern_of path = cc in ap₂ ◌∷◌ here (Matches-unique g path _ rest m)
      | inr plain ↦ let same = e ∙ pattern_of-itself d path plain in absurd (not_open d plain (cc))
    ]
Matches-unique glob (d ∷ path) other e (itself c {pattern_ = g} h m) =
    elim (Bool-cases (is_bracketed d)) [
      | inl class ↦ let same = e ∙ pattern_of-class d path class in absurd (not_meta c h (cc))
      | inr plain ↦
          let same = e ∙ pattern_of-itself d path plain in
          let here : c ≡ d = cc in
          let rest : g ≡ pattern_of path = cc in ap₂ ◌∷◌ here (Matches-unique g path _ rest m)
    ]

-- The pattern that `_cmake_glob_pattern` returns matches the path that it was made of, and matches
-- no other path.
pub cmake_glob_pattern_exact :
    (path glob other : Bytes)
    → cmake_glob_pattern path ≡ some glob
    → Matches glob other ↔ (other ≡ path)
unfolding cmake_glob_pattern
cmake_glob_pattern_exact path glob other h = elim (Bool-cases (any is_unsafe path)) [
  | inl unsafe ↦ absurd (cc (rw unsafe at h))
  | inr safe ↦
      let e = some_injective (rw safe at h) in
      (
        λ m. Matches-unique glob path other (sym e) m,
        λ same. subst (λ g. Matches g other) e (rw same (pattern_of-Matches path)),
      )
]
