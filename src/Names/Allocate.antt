-- ===== src/Names/Allocate.antt =====
-- `_allocation_candidates` and `EmittedNameScope.allocate` of src/protocyte/names.py. The digest
-- of hashlib is the parameter `sha256_hexdigest`.
pub mod Keeps
pub mod Order
pub mod Placed
use protocyte.Common.{
  ℕ, zero, suc, ◌+◌, ◌-◌, Bool, true, false, not, ◌&&◌, ◌||◌, List, [], ◌∷◌, ◌++◌, map, Bytes,
  codes, text_eq, ends_with, ltb, ◌==◌, if◌then◌else◌, take, decimal, Result, ok, err, ◌>>=◌,
}
use protocyte.Names.Identifier.{derivable_identifier_suffix}
use protocyte.Names.Member.{
  EmittedNameMember, EmittedNameRequest, EmittedNameUse, NameError, render,
}
use protocyte.Names.Scope.{Uses, can_add_all, add_all}

-- text.rstrip("_")
unfoldable pub rstrip_underscore : Bytes → Bytes
rstrip_underscore [] = []
rstrip_underscore (c ∷ text) = elim (rstrip_underscore text) [
  | [] ↦ if c == b'_' then [] else c ∷ []
  | d ∷ rest ↦ c ∷ d ∷ rest
]

-- text or default
unfoldable pub or_default : Bytes → Bytes → Bytes
or_default [] default = default
or_default (c ∷ text) default = c ∷ text

-- a < b, the order of texts by code points, which is the order of their UTF-8 bytes
unfoldable pub text_lt : Bytes → Bytes → Bool
text_lt a [] = false
text_lt [] (y ∷ b) = true
text_lt (x ∷ a) (y ∷ b) = ltb x y || (x == y && text_lt a b)

-- key(a) < key(b) for the key (priority, preferred, owner)
unfoldable pub request_lt : EmittedNameRequest → EmittedNameRequest → Bool
unfolding text_lt text_eq
request_lt a b =
    ltb a.priority b.priority
    || (a.priority == b.priority
        && (text_lt a.preferred b.preferred
            || (text_eq a.preferred b.preferred && text_lt a.owner b.owner)))

-- sorted(requests, key=…), which is stable: a request is put before the first larger one.
unfoldable pub insert_request :
    EmittedNameRequest → List EmittedNameRequest → List EmittedNameRequest
unfolding request_lt
insert_request r [] = r ∷ []
insert_request r (q ∷ sorted) =
    if request_lt q r then q ∷ insert_request r sorted else r ∷ q ∷ sorted

unfoldable pub sorted_requests : List EmittedNameRequest → List EmittedNameRequest
unfolding insert_request
sorted_requests [] = []
sorted_requests (r ∷ requests) = insert_request r (sorted_requests requests)

unfoldable pub rendered_uses :
    EmittedNameRequest
    → List EmittedNameMember
    → Bytes
    → Result NameError (List (Bytes × EmittedNameUse))
unfolding render
rendered_uses request [] candidate = ok []
rendered_uses request (member ∷ members) candidate = do
  name ← render member candidate
  rest ← rendered_uses request members candidate
  ok (
      (name, record { owner = request.owner; kind = member.kind; signature = member.signature })
      ∷ rest)

-- allocated[owner] = candidate
unfoldable pub set_allocated : Bytes → Bytes → List (Bytes × Bytes) → List (Bytes × Bytes)
unfolding text_eq
set_allocated owner candidate [] = (owner, candidate) ∷ []
set_allocated owner candidate ((key, old) ∷ rest) =
    if text_eq key owner
    then (key, candidate) ∷ rest
    else (key, old) ∷ set_allocated owner candidate rest

module _ (sha256_hexdigest : Bytes → Bytes) where
  unfoldable pub hashed_base : EmittedNameRequest → Bytes
  unfolding rstrip_underscore or_default
  hashed_base request =
      or_default (rstrip_underscore request.preferred) (codes "protocyte_name")
      ++ codes "_protocyte_"
      ++ take 12 (sha256_hexdigest request.owner)

  -- The candidates behind the hashed one: suffixes count up from 2.
  unfoldable pub numbered_candidate : EmittedNameRequest → ℕ → Bytes
  unfolding hashed_base decimal
  numbered_candidate request index = hashed_base request ++ codes "_" ++ decimal (index + 2)

  unfoldable pub plain_fallback : Bytes → Bytes
  unfolding ends_with
  plain_fallback preferred =
      if ends_with b'_' preferred
      then preferred ++ derivable_identifier_suffix
      else preferred ++ codes "_"

  -- The value that `_allocation_candidates` yields at each index.
  unfoldable pub allocation_candidate : EmittedNameRequest → ℕ → Bytes
  unfolding numbered_candidate plain_fallback
  allocation_candidate request zero = request.preferred
  allocation_candidate request (suc zero) =
      if request.hash_fallback then hashed_base request else plain_fallback request.preferred
  allocation_candidate request (suc (suc index)) =
      if request.hash_fallback
      then numbered_candidate request index
      else elim index [ zero ↦ hashed_base request | suc later ↦ numbered_candidate request later ]

  -- The inner loop of `allocate` from the candidate at `index` on; the fuel bounds the candidates.
  unfoldable pub allocate_one : ℕ → ℕ → EmittedNameRequest → Uses → Result NameError (Uses × Bytes)
  unfolding allocation_candidate rendered_uses can_add_all add_all
  allocate_one zero index request uses = err NameError.out_of_candidates
  allocate_one (suc fuel) index request uses = do
    let candidate = allocation_candidate request index
    rendered ← rendered_uses request request.members candidate
    elim (can_add_all uses [] rendered) [
      | true ↦ ok (add_all uses rendered, candidate)
      | false ↦ allocate_one fuel (index + 1) request uses
    ]

  unfoldable pub allocate_loop :
      ℕ
      → List EmittedNameRequest
      → Uses
      → List (Bytes × Bytes)
      → Result NameError (Uses × List (Bytes × Bytes))
  unfolding allocate_one set_allocated
  allocate_loop fuel [] uses allocated = ok (uses, allocated)
  allocate_loop fuel (request ∷ requests) uses allocated = do
    (uses', candidate) ← allocate_one fuel 0 request uses
    allocate_loop fuel requests uses' (set_allocated request.owner candidate allocated)

  unfoldable pub allocate :
      ℕ → List EmittedNameRequest → Uses → Result NameError (Uses × List (Bytes × Bytes))
  unfolding allocate_loop sorted_requests
  allocate fuel requests uses = allocate_loop fuel (sorted_requests requests) uses []
