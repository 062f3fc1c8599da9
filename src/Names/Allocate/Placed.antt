-- ===== src/Names/Allocate/Placed.antt =====
-- Every request is served: the name that `allocate` returns for its owner is one whose rendered
-- members stand in the scope.
use protocyte.Common.{
  ℕ, ◌≡◌, refl, sym, subst, ap, arith, Bool, true, false, Option, none, some, List, [], ◌∷◌, ◌++◌,
  All, any, any-append_left, any-snoc, Bytes, text_eq, text_eq_refl, text_eq_sound, text_eq_comm,
  Bool-cases, inl, inr, if◌then◌else◌, ok, >>=-eq-ok, ok-injective, ◌∙◌,
}
use protocyte.Names.Member.{EmittedNameRequest, EmittedNameUse, use_eq, option_eq}
use protocyte.Names.Scope.{Uses, uses_of, add_use, add_all}
use protocyte.Names.Scope.Lookup.{uses_of-add_use}
use protocyte.Names.Allocate.{
  rendered_uses, allocate_one, allocate_loop, allocate, set_allocated, sorted_requests,
}
use protocyte.Names.Allocate.Keeps.{IsGranted, allocate_one-IsGranted}
use protocyte.Names.Allocate.Order.{
  HasDistinctOwners, sorted_requests-All, sorted-HasDistinctOwners,
}

-- allocated.get(owner)
abbrev pub allocated_for : Bytes → List (Bytes × Bytes) → Option Bytes
allocated_for owner [] = none
allocated_for owner ((key, candidate) ∷ rest) =
    if text_eq key owner then some candidate else allocated_for owner rest

-- The use stands under the name in the scope.
abbrev pub IsRecorded : Uses → Bytes × EmittedNameUse → Type 0
IsRecorded uses entry = any (use_eq entry.1) (uses_of entry.0 uses) ≡ true

-- The request's owner has a name, and the members rendered for it are recorded.
pub record IsPlaced (after : Uses) (allocated : List (Bytes × Bytes)) (request : EmittedNameRequest)
    : Type 0 where
  pub candidate : Bytes
  pub names : List (Bytes × EmittedNameUse)
  pub owned : allocated_for request.owner allocated ≡ some candidate
  pub rendered : rendered_uses request request.members candidate ≡ ok names
  pub recorded : All (IsRecorded after) names

allocated_for-set_self :
    (owner candidate : Bytes) (l : List (Bytes × Bytes))
    → allocated_for owner (set_allocated owner candidate l) ≡ some candidate
unfolding set_allocated
allocated_for-set_self owner candidate [] = rw text_eq_refl
allocated_for-set_self owner candidate ((k, old) ∷ l) = elim (Bool-cases (text_eq k owner)) [
  | inl same ↦ rw (same, same)
  | inr other ↦ rw (other, other) (allocated_for-set_self owner candidate l)
]

allocated_for-set_ne :
    (owner other candidate : Bytes) (l : List (Bytes × Bytes))
    → text_eq other owner ≡ false
    → allocated_for owner (set_allocated other candidate l) ≡ allocated_for owner l
unfolding set_allocated
allocated_for-set_ne owner other candidate [] apart = rw apart
allocated_for-set_ne owner other candidate ((k, old) ∷ l) apart =
    elim (Bool-cases (text_eq k other)) [
      | inl same ↦
          let e = text_eq_sound k other same in
          let k_apart : text_eq k owner ≡ false = ap (λ t. text_eq t owner) e ∙ apart in
          rw (same, k_apart)
      | inr fresh ↦ rw fresh (ground (arith, allocated_for-set_ne owner other candidate l apart))
    ]

use_eq_refl : (u : EmittedNameUse) → use_eq u u ≡ true
unfolding use_eq
use_eq_refl u = ground (arith, text_eq_refl u.owner, option_eq_refl u.signature)
  where
    option_eq_refl : (o : Option Bytes) → option_eq o o ≡ true
    option_eq_refl none = refl
    option_eq_refl (some s) = text_eq_refl s

IsRecorded-add_use :
    (name : Bytes) (u : EmittedNameUse) (uses : Uses) (entry : Bytes × EmittedNameUse)
    → IsRecorded uses entry
    → IsRecorded (add_use name u uses) entry
IsRecorded-add_use name u uses (n, v) h =
    rw (uses_of-add_use n name u uses) (by_test (text_eq name n))
  where
    by_test :
        (b : Bool) → any (use_eq v) (if b then uses_of n uses ++ u ∷ [] else uses_of n uses) ≡ true
    by_test true = any-append_left (use_eq v) (uses_of n uses) (u ∷ []) h
    by_test false = h

IsRecorded-add_all :
    (names : List (Bytes × EmittedNameUse)) (uses : Uses) (entry : Bytes × EmittedNameUse)
    → IsRecorded uses entry
    → IsRecorded (add_all uses names) entry
unfolding add_all
IsRecorded-add_all [] uses entry h = h
IsRecorded-add_all ((name, u) ∷ names) uses entry h =
    IsRecorded-add_all names (add_use name u uses) entry (IsRecorded-add_use name u uses entry h)

add_all-IsRecorded :
    (names : List (Bytes × EmittedNameUse)) (uses : Uses)
    → All (IsRecorded (add_all uses names)) names
unfolding add_all
add_all-IsRecorded [] uses = tt
add_all-IsRecorded ((name, u) ∷ names) uses = (
  IsRecorded-add_all names (add_use name u uses) (name, u)
      (rw (uses_of-add_use name name u uses, text_eq_refl name)
        (any-snoc (use_eq u) (uses_of name uses) u (use_eq_refl u))),
  add_all-IsRecorded names (add_use name u uses),
)

All-map {ℓ} :
    {A : Type ℓ} (P Q : A → Type 0) (xs : List A) → ((x : A) → P x → Q x) → All P xs → All Q xs
All-map P Q [] f h = tt
All-map P Q (x ∷ xs) f (h, hs) = (f x h, All-map P Q xs f hs)

module _ (sha256_hexdigest : Bytes → Bytes) where
  -- The two parts of one round of the loop.
  round :
      (fuel : ℕ) (r : EmittedNameRequest) (requests : List EmittedNameRequest) (uses after : Uses)
      (allocated final : List (Bytes × Bytes))
      → allocate_loop sha256_hexdigest fuel (r ∷ requests) uses allocated ≡ ok (after, final)
      → (uses' : Uses) × (candidate : Bytes) × IsGranted r uses uses' candidate
        × (allocate_loop sha256_hexdigest fuel requests uses'
              (set_allocated r.owner candidate allocated)
            ≡ ok (after, final))
  unfolding allocate_loop
  round fuel r requests uses after allocated final h =
      let ((uses', candidate), one, rest) =
        >>=-eq-ok (allocate_one sha256_hexdigest fuel 0 r uses) _ h in
      (
        uses',
        candidate,
        allocate_one-IsGranted sha256_hexdigest fuel 0 r uses uses' candidate one,
        rest,
      )

  loop_end :
      (fuel : ℕ) (uses after : Uses) (allocated final : List (Bytes × Bytes))
      → allocate_loop sha256_hexdigest fuel [] uses allocated ≡ ok (after, final)
      → (uses ≡ after) × (allocated ≡ final)
  unfolding allocate_loop
  loop_end fuel uses after allocated final h =
      let same = ok-injective h in (ap (λ p. p.0) same, ap (λ p. p.1) same)

  loop-IsRecorded :
      (fuel : ℕ) (requests : List EmittedNameRequest) (uses after : Uses)
      (allocated final : List (Bytes × Bytes)) (entry : Bytes × EmittedNameUse)
      → allocate_loop sha256_hexdigest fuel requests uses allocated ≡ ok (after, final)
      → IsRecorded uses entry
      → IsRecorded after entry
  loop-IsRecorded fuel [] uses after allocated final entry h known =
      subst (λ d. IsRecorded d entry) (loop_end fuel uses after allocated final h).0 known
  loop-IsRecorded fuel (r ∷ requests) uses after allocated final entry h known =
      let (uses', candidate, g, rest) = round fuel r requests uses after allocated final h in
      loop-IsRecorded fuel requests uses' after (set_allocated r.owner candidate allocated) final
        entry rest
        (subst (λ d. IsRecorded d entry) (sym g.added)
          (IsRecorded-add_all g.names uses entry known))

  allocated_for-loop :
      (fuel : ℕ) (requests : List EmittedNameRequest) (uses after : Uses)
      (allocated final : List (Bytes × Bytes)) (owner : Bytes)
      → allocate_loop sha256_hexdigest fuel requests uses allocated ≡ ok (after, final)
      → All (λ q. text_eq owner q.owner ≡ false) requests
      → allocated_for owner final ≡ allocated_for owner allocated
  allocated_for-loop fuel [] uses after allocated final owner h apart =
      ap (allocated_for owner) (sym (loop_end fuel uses after allocated final h).1)
  allocated_for-loop fuel (r ∷ requests) uses after allocated final owner h (here, apart) =
      let (uses', candidate, g, rest) = round fuel r requests uses after allocated final h in
      allocated_for-loop fuel requests uses' after (set_allocated r.owner candidate allocated) final
        owner rest apart
      ∙ allocated_for-set_ne owner r.owner candidate allocated (text_eq_comm r.owner owner ∙ here)

  loop-IsPlaced :
      (fuel : ℕ) (requests : List EmittedNameRequest) (uses after : Uses)
      (allocated final : List (Bytes × Bytes))
      → HasDistinctOwners requests
      → allocate_loop sha256_hexdigest fuel requests uses allocated ≡ ok (after, final)
      → All (IsPlaced after final) requests
  loop-IsPlaced fuel [] uses after allocated final d h = tt
  loop-IsPlaced fuel (r ∷ requests) uses after allocated final (apart, d) h =
      let (uses', candidate, g, rest) = round fuel r requests uses after allocated final h in
      let allocated' = set_allocated r.owner candidate allocated in
      (
        record {
          candidate = candidate;
          names = g.names;
          owned =
              allocated_for-loop fuel requests uses' after allocated' final r.owner rest apart
              ∙ allocated_for-set_self r.owner candidate allocated;
          rendered = g.rendered;
          recorded =
              All-map (IsRecorded uses') (IsRecorded after) g.names
                (λ e. loop-IsRecorded fuel requests uses' after allocated' final e rest)
                (subst (λ u. All (IsRecorded u) g.names) (sym g.added)
                  (add_all-IsRecorded g.names uses));
        },
        loop-IsPlaced fuel requests uses' after allocated' final d rest,
      )

  -- When no two requests have one owner, an `allocate` that returns has a name for the owner of
  -- every request, and the use of every member rendered for that name is recorded in the scope.
  pub allocate-IsPlaced :
      (fuel : ℕ) (requests : List EmittedNameRequest) (uses after : Uses)
      (allocated : List (Bytes × Bytes))
      → HasDistinctOwners requests
      → allocate sha256_hexdigest fuel requests uses ≡ ok (after, allocated)
      → All (IsPlaced after allocated) requests
  unfolding allocate
  allocate-IsPlaced fuel requests uses after allocated d h =
      sorted_requests-All (IsPlaced after allocated) requests (
        loop-IsPlaced fuel (sorted_requests requests) uses after [] allocated
          (sorted-HasDistinctOwners requests d) h)
