-- ===== src/Parameters/Prefix/Characters.antt =====
-- The characters of accepted prefixes, which are written into the generated C++.
use protocyte.Common.{
  ℕ, ◌≡◌, refl, arith, Bool, true, false, not, ◌&&◌, ◌||◌, List, [], ◌∷◌, ok, raise_if-passed,
  >>-eq-ok, ok-injective, sym, ap, ◌∙◌, any, all, ◌==◌, Bool-cases, inl, inr, &&-true, ||-false,
}
use protocyte.Names.Identifier.{is_cpp_identifier, is_identifier_start, is_identifier_continue}
use protocyte.Parameters.Text.{Text, push_character, split_scopes}
use protocyte.Parameters.Prefix.{not_portable_namespace, is_unportable, validate_namespace_prefix}

-- A test that fails at every member.
all-not-any :
    {A : Type 0} (p : A → Bool) (xs : List A) → any p xs ≡ false → all (λ x. not (p x)) xs ≡ true
all-not-any p [] none_of = refl
all-not-any p (x ∷ xs) none_of =
    let (here, rest) = ||-false (p x) _ none_of in rw (here, all-not-any p xs rest) refl

all-weaken :
    {A : Type 0} (p q : A → Bool) (xs : List A)
    → ((x : A) → p x ≡ true → q x ≡ true)
    → all p xs ≡ true
    → all q xs ≡ true
all-weaken p q [] weaken holds = refl
all-weaken p q (x ∷ xs) weaken holds =
    let (here, rest) = &&-true (p x) _ holds in
    rw (weaken x here, all-weaken p q xs weaken rest) refl

-- [A-Za-z0-9_:]
abbrev pub is_namespace_character : ℕ → Bool
is_namespace_character c = is_identifier_continue c || c == b':'

||-true : (b : Bool) → (b || true) ≡ true
||-true true = refl
||-true false = refl

push_character-all :
    (p : ℕ → Bool) (c : ℕ) (parts : List Text)
    → all (all p) (push_character c parts) ≡ true
    → (p c ≡ true) × (all (all p) parts ≡ true)
unfolding push_character
push_character-all p c [] holds = ((&&-true (p c) true (&&-true _ true holds).0).0, refl)
push_character-all p c (part ∷ parts) holds =
    let (front, rest) = &&-true (p c && all p part) _ holds in
    let (here, back) = &&-true (p c) _ front in (here, rw (back, rest) refl)

split_scopes-cut :
    (c d : ℕ) (text : Text)
    → (c == b':' && d == b':') ≡ true
    → split_scopes (c ∷ d ∷ text) ≡ [] ∷ split_scopes text
unfolding split_scopes
split_scopes-cut c d text cut = rw (split_scopes, cut) refl

split_scopes-kept :
    (c d : ℕ) (text : Text)
    → (c == b':' && d == b':') ≡ false
    → split_scopes (c ∷ d ∷ text) ≡ push_character c (split_scopes (d ∷ text))
unfolding split_scopes
split_scopes-kept c d text kept = rw (split_scopes, kept) refl

-- What holds of the characters of every component holds of all characters but ":".
split_scopes-all :
    (p : ℕ → Bool) (text : Text)
    → all (all p) (split_scopes text) ≡ true
    → all (λ c. p c || c == b':') text ≡ true
unfolding split_scopes
split_scopes-all p [] holds = refl
split_scopes-all p (c ∷ []) holds = ground arith
split_scopes-all p (c ∷ d ∷ text) holds = elim (Bool-cases (c == b':' && d == b':')) [
  | inl cut ↦
      let (first, second) = &&-true (c == b':') _ cut in
      let rest =
        split_scopes-all p text (sym (ap (all (all p)) (split_scopes-cut c d text cut)) ∙ holds) in
      rw (first, second, ||-true (p c), ||-true (p d), rest) refl
  | inr kept ↦
      let (here, rest) =
        push_character-all p c (split_scopes (d ∷ text))
          (sym (ap (all (all p)) (split_scopes-kept c d text kept)) ∙ holds) in
      rw (here, split_scopes-all p (d ∷ text) rest) refl
]

identifier-characters :
    (name : Text) → is_cpp_identifier name ≡ true → all is_identifier_continue name ≡ true
unfolding is_cpp_identifier is_identifier_continue
identifier-characters [] matches = cc
identifier-characters (c ∷ name) matches =
    let (first, rest) = &&-true (is_identifier_start c) _ matches in rw (first, rest) refl

is_unportable-identifier :
    (component : Text) → is_unportable component ≡ false → is_cpp_identifier component ≡ true
unfolding is_unportable
is_unportable-identifier component portable = elim (Bool-cases (is_cpp_identifier component)) [
  | inl matches ↦ matches
  | inr other ↦ let wrong = (rw (is_unportable, other) at portable) in cc
]

components-characters :
    (components : List Text)
    → any is_unportable components ≡ false
    → all (all is_identifier_continue) components ≡ true
components-characters [] portable = refl
components-characters (component ∷ components) portable =
    let (here, rest) = ||-false (is_unportable component) _ portable in
    let matches = is_unportable-identifier component here in
    rw (identifier-characters component matches, components-characters components rest) refl

-- A namespace prefix that is accepted is returned as it is, and every character of it is a letter,
-- a digit, "_" or ":": nothing else gets into the namespace declarations.
pub validate_namespace_prefix-characters :
    (value : Text) {result : Text}
    → validate_namespace_prefix value ≡ ok result
    → (result ≡ value) × (all is_namespace_character value ≡ true)
unfolding validate_namespace_prefix
validate_namespace_prefix-characters [] accepted = (sym (ok-injective accepted), refl)
validate_namespace_prefix-characters (c ∷ value) accepted =
    let text = c ∷ value in
    let (checks, same) = >>-eq-ok _ (ok text) accepted in
    let (_, portable, _) =
      raise_if-passed _ (any is_unportable (split_scopes text)) not_portable_namespace (ok text)
        accepted in
    (
      sym (ok-injective same),
      split_scopes-all is_identifier_continue text
          (components-characters (split_scopes text) portable),
    )
