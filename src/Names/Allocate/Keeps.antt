-- ===== src/Names/Allocate/Keeps.antt =====
-- `allocate` keeps the scope unambiguous, and what it says about each request is so.
use protocyte.Common.{
  ℕ, zero, suc, ◌+◌, ◌≡◌, sym, subst, ap, true, List, [], ◌∷◌, Bytes, Bool-cases, inl, inr, ok,
  >>=-eq-ok, ok-injective,
}
use protocyte.Names.Member.{EmittedNameRequest, EmittedNameUse}
use protocyte.Names.Scope.{Uses, can_add_all, add_all}
use protocyte.Names.Scope.Coexist.{IsUnambiguous, add_all-IsUnambiguous}
use protocyte.Names.Allocate.{
  rendered_uses, allocation_candidate, allocate_one, allocate_loop, allocate, set_allocated,
  sorted_requests,
}

-- A candidate whose rendered names all fit, with the dictionary that holds them.
pub record IsGranted (request : EmittedNameRequest) (uses after : Uses) (candidate : Bytes)
    : Type 0 where
  pub names : List (Bytes × EmittedNameUse)
  pub rendered : rendered_uses request request.members candidate ≡ ok names
  pub fit : can_add_all uses [] names ≡ true
  pub added : after ≡ add_all uses names

module _ (sha256_hexdigest : Bytes → Bytes) where
  pub allocate_one-IsGranted :
      (fuel index : ℕ) (request : EmittedNameRequest) (uses after : Uses) (candidate : Bytes)
      → allocate_one sha256_hexdigest fuel index request uses ≡ ok (after, candidate)
      → IsGranted request uses after candidate
  unfolding allocate_one
  allocate_one-IsGranted zero index request uses after candidate h = absurd (cc)
  allocate_one-IsGranted (suc fuel) index request uses after candidate h =
      let tried = allocation_candidate sha256_hexdigest request index in
      let (names, rendered, rest) = >>=-eq-ok (rendered_uses request request.members tried) _ h in
      elim (Bool-cases (can_add_all uses [] names)) [
        | inl fit ↦
            let same = ok-injective (rw fit at rest) in
            let spelled : tried ≡ candidate = ap (λ p. p.1) same in
            record {
              names = names;
              rendered =
                  subst (λ c. rendered_uses request request.members c ≡ ok names) spelled rendered;
              fit = fit;
              added = sym (ap (λ p. p.0) same);
            }
        | inr full ↦
            allocate_one-IsGranted fuel (index + 1) request uses after candidate (rw full at rest)
      ]

  allocate_loop-IsUnambiguous :
      (fuel : ℕ) (requests : List EmittedNameRequest) (uses after : Uses)
      (allocated final : List (Bytes × Bytes))
      → IsUnambiguous uses
      → allocate_loop sha256_hexdigest fuel requests uses allocated ≡ ok (after, final)
      → IsUnambiguous after
  unfolding allocate_loop
  allocate_loop-IsUnambiguous fuel [] uses after allocated final w h =
      subst IsUnambiguous (ap (λ p. p.0) (ok-injective h)) w
  allocate_loop-IsUnambiguous fuel (r ∷ requests) uses after allocated final w h =
      let ((uses', candidate), one, rest) =
        >>=-eq-ok (allocate_one sha256_hexdigest fuel 0 r uses) _ h in
      let g = allocate_one-IsGranted fuel 0 r uses uses' candidate one in
      allocate_loop-IsUnambiguous fuel requests uses' after
        (set_allocated r.owner candidate allocated) final
        (subst IsUnambiguous (sym g.added) (add_all-IsUnambiguous uses g.names g.fit w)) rest

  -- From an unambiguous scope, an `allocate` that returns leaves an unambiguous scope: every name
  -- that has uses is portable, and uses of one name have signatures that differ.
  pub allocate-IsUnambiguous :
      (fuel : ℕ) (requests : List EmittedNameRequest) (uses after : Uses)
      (allocated : List (Bytes × Bytes))
      → IsUnambiguous uses
      → allocate sha256_hexdigest fuel requests uses ≡ ok (after, allocated)
      → IsUnambiguous after
  unfolding allocate
  allocate-IsUnambiguous fuel requests uses after allocated w h =
      allocate_loop-IsUnambiguous fuel (sorted_requests requests) uses after [] allocated w h
