-- ===== src/Common/Outcome.antt =====
-- What a function that may raise returns, and the bind of the `do` blocks.
use mathlib.Core.Path.{◌≡◌, refl}
use mathlib.Core.Bool.{Bool, true, false}

-- `E` lists the places at which the function raises.
pub data Result {ℓ} (E : Type 0) (A : Type ℓ) : Type ℓ where
  err : E → Result E A
  ok : A → Result E A

module _ {E : Type 0} where
  infixl 5 ◌>>=◌
  -- A raised exception skips the rest of the block.
  abbrev pub ◌>>=◌ {ℓ κ} : {B : Type κ} {A : Type ℓ} → Result E A → (A → Result E B) → Result E B
  ◌>>=◌ (err raised) rest = err raised
  ◌>>=◌ (ok value) rest = rest value

  module _ {ℓ κ} {A : Type ℓ} {B : Type κ} where
    -- A block that returns has returned from its first step and from the rest.
    pub >>=-eq-ok :
        (step : Result E A) (rest : A → Result E B) {result : B}
        → (step >>= rest) ≡ ok result
        → (value : A) × (step ≡ ok value) × (rest value ≡ ok result)
    >>=-eq-ok (err raised) rest returned = cc
    >>=-eq-ok (ok value) rest returned = (value, refl, returned)

  infixl 5 ◌>>◌
  abbrev pub ◌>>◌ {ℓ} : {A : Type ℓ} → Result E (Unit {0}) → Result E A → Result E A
  check >> rest = check >>= λ _. rest

  -- `if test: raise raised`
  abbrev pub raise_if : Bool → E → Result E (Unit {0})
  raise_if false raised = ok tt
  raise_if true raised = err raised

  pub ok-injective {ℓ} : {A : Type ℓ} {a b : A} → ◌≡◌ {A = Result E A} (ok a) (ok b) → a ≡ b
  ok-injective same = cc

  module _ {ℓ} {A : Type ℓ} where
    -- Checks that did not raise, in front of a step that returned.
    pub >>-eq-ok :
        (check : Result E (Unit {0})) (rest : Result E A) {result : A}
        → (check >> rest) ≡ ok result
        → (check ≡ ok tt) × (rest ≡ ok result)
    >>-eq-ok (err raised) rest returned = cc
    >>-eq-ok (ok tt) rest returned = (refl, returned)

    pub raise_if-passed :
        (check : Result E (Unit {0})) (test : Bool) (raised : E) (rest : Result E A) {result : A}
        → (check >> raise_if test raised >> rest) ≡ ok result
        → (check ≡ ok tt) × (test ≡ false) × (rest ≡ ok result)
    raise_if-passed (err stopped) test raised rest returned = cc
    raise_if-passed (ok tt) true raised rest returned = cc
    raise_if-passed (ok tt) false raised rest returned = (refl, refl, returned)

  pub raise_if-ok : (test : Bool) (raised : E) → raise_if test raised ≡ ok tt → test ≡ false
  raise_if-ok false raised passed = refl
  raise_if-ok true raised passed = cc
