-- ===== src/Names/Scope/Lookup.antt =====
-- What `uses_of` finds after uses have been added.
use protocyte.Common.{
  ◌≡◌, refl, sym, ap, arith, Bool, true, false, [], ◌∷◌, ◌++◌, append_assoc, Bytes, text_eq,
  text_eq_sound, text_eq_refl, Bool-cases, inl, inr, if◌then◌else◌, ◌∙◌,
}
use protocyte.Names.Member.{EmittedNameUse}
use protocyte.Names.Scope.{Uses, uses_of, add_use}

-- An added use is found under its name, behind the older ones, and under no other name.
pub uses_of-add_use :
    (n m : Bytes) (u : EmittedNameUse) (d : Uses)
    → uses_of n (add_use m u d) ≡ (if text_eq m n then uses_of n d ++ u ∷ [] else uses_of n d)
unfolding uses_of add_use
uses_of-add_use n m u [] = refl
uses_of-add_use n m u ((k, us) ∷ d) = elim (Bool-cases (text_eq k m)) [
  | inl same ↦ let e = text_eq_sound k m same in ground (arith, e, ap (λ t. text_eq t n) e)
  | inr other ↦ elim (Bool-cases (text_eq k n)) [
    | inl here ↦
        let e = text_eq_sound k n here in
        let apart : text_eq m n ≡ false = elim (Bool-cases (text_eq m n)) [
          | inl p ↦ cc (other, text_eq_refl k, ap (text_eq k) (e ∙ sym (text_eq_sound m n p)))
          | inr p ↦ p
        ] in
        rw (other, here, apart)
    | inr away ↦ rw (other, away) (uses_of-add_use n m u d)
  ]
]

-- Staging the uses in a second dictionary and joining what both find is adding them to the first.
pub uses_of-staged :
    (n m : Bytes) (u : EmittedNameUse) (uses staged whole : Uses)
    → uses_of n whole ≡ uses_of n uses ++ uses_of n staged
    → uses_of n (add_use m u whole) ≡ uses_of n uses ++ uses_of n (add_use m u staged)
uses_of-staged n m u uses staged whole h =
    rw (uses_of-add_use n m u whole, uses_of-add_use n m u staged) (by_name (text_eq m n))
  where
    by_name :
        (b : Bool)
        → (if b then uses_of n whole ++ u ∷ [] else uses_of n whole)
          ≡ uses_of n uses ++ (if b then uses_of n staged ++ u ∷ [] else uses_of n staged)
    by_name true =
        ap (λ us. us ++ u ∷ []) h ∙ append_assoc (uses_of n uses) (uses_of n staged) (u ∷ [])
    by_name false = h
