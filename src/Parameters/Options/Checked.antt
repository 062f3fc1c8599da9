-- ===== src/Parameters/Options/Checked.antt =====
-- What the checks of `GeneratorOptions` leave behind.
use protocyte.Common.{
  ◌≡◌, refl, sym, true, false, not, ◌||◌, ◌⊎◌, subst, Option, none, some, Result, ok, err, ◌>>=◌,
  ◌>>◌, raise_if, >>-eq-ok, ok-injective, if◌then◌else◌, Bool-cases, inl, inr,
}
use protocyte.Parameters.Prefix.{ParameterError, invalid_timeout}
use protocyte.Parameters.Options.{
  Numbers, Options, checked_timeout, check_texts, check_budgets, with_timeout, post_init,
}

-- What is known of a constructor that returned.
pub passed :
    {T O : Type 0} (texts : Result ParameterError (Unit {0})) (time : Result ParameterError T)
    (budgets : Result ParameterError (Unit {0})) (build : T → O) {o : O}
    → (texts >> time >>= λ t. budgets >> ok (build t)) ≡ ok o
    → (t : T) × (texts ≡ ok tt) × (time ≡ ok t) × (budgets ≡ ok tt) × (build t ≡ o)
passed (err raised) time budgets build returned = cc
passed (ok u) (err raised) budgets build returned = cc
passed (ok u) (ok t) (err raised) build returned = cc
passed (ok u) (ok t) (ok v) build returned = (t, refl, refl, refl, ok-injective returned)

module _ (n : Numbers) where
  zero_timeout :
      (t : n.Float) {checked : Option n.Float}
      → n.is_zero t ≡ true
      → ◌≡◌ {A = Result ParameterError (Option n.Float)}
          (ok (if n.is_zero t then none else some t))
          (ok checked)
      → checked ≡ none
  zero_timeout t vanishes same = sym (ok-injective (rw vanishes at same))

  kept_timeout :
      (t : n.Float) {checked : Option n.Float}
      → n.is_zero t ≡ false
      → ◌≡◌ {A = Result ParameterError (Option n.Float)}
          (ok (if n.is_zero t then none else some t))
          (ok checked)
      → checked ≡ some t
  kept_timeout t positive same = sym (ok-injective (rw positive at same))

  -- A timeout of zero became none.
  pub checked_timeout-cases :
      (timeout : Option n.Float) {checked : Option n.Float}
      → checked_timeout n timeout ≡ ok checked
      → (checked ≡ none)
        ⊎ ((t : n.Float) × (checked ≡ some t)
            × ((not (n.is_finite t) || n.is_negative t) ≡ false)
            × (n.is_zero t ≡ false))
  unfolding checked_timeout
  checked_timeout-cases none returned = inl (sym (ok-injective returned))
  checked_timeout-cases (some t) returned =
      let (passes, same) =
        >>-eq-ok (raise_if (not (n.is_finite t) || n.is_negative t) invalid_timeout) _ returned in
      elim (Bool-cases (not (n.is_finite t) || n.is_negative t)) [
        | inl bad ↦ let wrong = (rw bad at passes) in cc
        | inr good ↦ elim (Bool-cases (n.is_zero t)) [
          | inl vanishes ↦ inl (zero_timeout t vanishes same)
          | inr positive ↦ inr (t, kept_timeout t positive same, good, positive)
        ]
      ]

  checked_timeout-again :
      (timeout : Option n.Float) {checked : Option n.Float}
      → checked_timeout n timeout ≡ ok checked
      → checked_timeout n checked ≡ ok checked
  unfolding checked_timeout
  checked_timeout-again timeout returned = elim (checked_timeout-cases timeout returned) [
    | inl same ↦ rw same refl
    | inr (t, same, good, positive) ↦ rw (same, checked_timeout, good, positive) refl
  ]

  pub post_init-again :
      (o : Options n) {checked : Options n}
      → post_init n o ≡ ok checked
      → post_init n checked ≡ ok checked
  unfolding post_init check_texts check_budgets
  post_init-again o returned =
      let (t, texts, time, budgets, same) =
        passed (check_texts n o) (checked_timeout n o.formatter_timeout_seconds) (check_budgets n o)
          (with_timeout n o) returned in
      subst (λ c. post_init n c ≡ ok c) same
        (rw (texts, checked_timeout-again o.formatter_timeout_seconds time, budgets) refl)
