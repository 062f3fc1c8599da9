-- ===== src/Model/Files/Rounds.antt =====
-- The rounds of the loop of `_validate_import_graph` in src/protocyte/model.py: what each leaves on the
-- stack, and that the loop ends.
use protocyte.Common.{
  ℕ, zero, suc, ◌+◌, ◌<◌, ◌≤◌, ◌≡◌, refl, sym, ap, subst, ◌∙◌, ◌⊎◌, arith, true, false, not, ◌&&◌,
  some, List, [], ◌∷◌, Result, ok, err, ◌>>◌, raise_if, >>=-eq-ok, >>-eq-ok, ok-injective, Bytes,
  text_eq, text_eq_refl, text_in, length, if◌then◌else◌, Bool-cases, inl, inr, ||-right,
}
use protocyte.Model.Graph.{Graph, successors, push_all, unseen_edges}
use protocyte.Model.Graph.Ends.{length-push_all, unseen_edges_visit}
use protocyte.Model.Graph.Reach.{text_in-cons}
use protocyte.Model.Files.{
  FileError, missing_import, unknown_root, validate_virtual_file_name, has_file, is_left_out,
  check_dependencies, next_round, import_round, import_loop,
}

kept_with :
    (files : Graph) (dependency : Bytes) (dependencies rest : List Bytes)
    → length rest ≤ length dependencies
    → ((b : Bytes)
        → text_in b dependencies ≡ true
        → (text_in b rest ≡ true) ⊎ (is_left_out files b ≡ true))
    → (length (if is_left_out files dependency then rest else dependency ∷ rest)
        ≤ suc (length dependencies))
      × ((b : Bytes)
          → text_in b (dependency ∷ dependencies) ≡ true
          → (text_in b (if is_left_out files dependency then rest else dependency ∷ rest) ≡ true)
            ⊎ (is_left_out files b ≡ true))
kept_with files dependency dependencies rest shorter kept =
    elim (Bool-cases (is_left_out files dependency)) [
      | inl left_out ↦ (
        rw left_out (omega (arith, shorter)),
        λ b found. elim (text_in-cons b dependency dependencies found) [
          | inl same ↦ inr (subst (λ n. is_left_out files n ≡ true) (sym same) left_out)
          | inr later ↦ rw left_out (kept b later)
        ],
      )
      | inr needed ↦ (
        rw needed (omega (arith, shorter)),
        λ b found. elim (text_in-cons b dependency dependencies found) [
          | inl same ↦ inl (rw (needed, same, text_eq_refl dependency) refl)
          | inr later ↦ elim (kept b later) [
            | inl pushed ↦ inl (rw needed (||-right (text_eq b dependency) _ pushed))
            | inr free ↦ inr free
          ]
        ],
      )
    ]

-- The dependencies that go on the stack are at most all of them, and all but those left out.
check_dependencies-kept :
    (files : Graph) (dependencies : List Bytes) {pushed : List Bytes}
    → check_dependencies files dependencies ≡ ok pushed
    → (length pushed ≤ length dependencies)
      × ((b : Bytes)
          → text_in b dependencies ≡ true
          → (text_in b pushed ≡ true) ⊎ (is_left_out files b ≡ true))
unfolding check_dependencies
check_dependencies-kept files [] returned =
    let same = ok-injective returned in
    (subst (λ p. length p ≤ 0) same (omega arith), λ b found. cc)
check_dependencies-kept files (dependency ∷ dependencies) returned =
    let checks =
      validate_virtual_file_name dependency
      >> raise_if (not (has_file dependency files) && not (is_left_out files dependency))
          missing_import in
    let (rest, first, same) =
      >>=-eq-ok (checks >> check_dependencies files dependencies) _ returned in
    let (_, checked) = >>-eq-ok checks (check_dependencies files dependencies) first in
    let (shorter, kept) = check_dependencies-kept files dependencies checked in
    subst
      (λ p.
        (length p ≤ suc (length dependencies))
        × ((b : Bytes)
            → text_in b (dependency ∷ dependencies) ≡ true
            → (text_in b p ≡ true) ⊎ (is_left_out files b ≡ true)))
      (ok-injective same) (kept_with files dependency dependencies rest shorter kept)

unfoldable pub IsLoopClosed : Graph → List Bytes → List Bytes → Type 0
IsLoopClosed files stack seen =
    (a b : Bytes)
    → text_in a seen ≡ true
    → text_in b (successors files a) ≡ true
    → (text_in b seen ≡ true) ⊎ (text_in b stack ≡ true) ⊎ (is_left_out files b ≡ true)

pub import_round-kept :
    (files : Graph) (name : Bytes) {pushed : List Bytes}
    → import_round files name ≡ ok pushed
    → (length pushed ≤ length (successors files name))
      × ((b : Bytes)
          → text_in b (successors files name) ≡ true
          → (text_in b pushed ≡ true) ⊎ (is_left_out files b ≡ true))
unfolding import_round
import_round-kept files name returned =
    let (_, checked) =
      >>-eq-ok (raise_if (not (has_file name files)) unknown_root)
        (check_dependencies files (successors files name)) returned in
    check_dependencies-kept files (successors files name) checked

-- A round that raised, or one that returned names.
pub Result-cases :
    {A : Type 0} (r : Result FileError A) → ((e : FileError) × (r ≡ err e)) ⊎ ((a : A) × (r ≡ ok a))
Result-cases (err e) = inl (e, refl)
Result-cases (ok a) = inr (a, refl)

pub import_loop-seen :
    (fuel : ℕ) (files : Graph) (name : Bytes) (stack seen : List Bytes)
    → text_in name seen ≡ true
    → import_loop (suc fuel) files (name ∷ stack) seen ≡ import_loop fuel files stack seen
unfolding import_loop
import_loop-seen fuel files name stack seen old = rw (import_loop, old) refl

pub import_loop-new :
    (fuel : ℕ) (files : Graph) (name : Bytes) (stack seen : List Bytes)
    {round : Result FileError (List Bytes)}
    → text_in name seen ≡ false
    → import_round files name ≡ round
    → import_loop (suc fuel) files (name ∷ stack) seen
      ≡ next_round (λ pushed. import_loop fuel files (push_all pushed stack) (name ∷ seen)) round
unfolding import_loop
import_loop-new fuel files name stack seen new made =
    rw (import_loop, new)
      (ap (next_round (λ pushed. import_loop fuel files (push_all pushed stack) (name ∷ seen)))
        made)

-- With more fuel than names on the stack and dependencies to follow, the loop ends.
pub import_loop-ends :
    (fuel : ℕ) (files : Graph) (stack seen : List Bytes)
    → length stack + unseen_edges files seen < fuel
    → (r : Result FileError (List Bytes)) × (import_loop fuel files stack seen ≡ some r)
unfolding import_loop
import_loop-ends zero files stack seen room = absurd (omega arith)
import_loop-ends (suc fuel) files [] seen room = (ok seen, refl)
import_loop-ends (suc fuel) files (name ∷ stack) seen room = elim (Bool-cases (text_in name seen)) [
  | inl old ↦
      let (r, ran) = import_loop-ends fuel files stack seen (omega arith) in
      (r, import_loop-seen fuel files name stack seen old ∙ ran)
  | inr new ↦ elim (Result-cases (import_round files name)) [
    | inl (e, raised) ↦ (err e, import_loop-new fuel files name stack seen new raised)
    | inr (pushed, made) ↦
        let shorter = (import_round-kept files name made).0 in
        let visited = unseen_edges_visit files name seen new in
        let (r, ran) =
          import_loop-ends fuel files (push_all pushed stack) (name ∷ seen)
            (omega (arith, length-push_all pushed stack, shorter, visited)) in
        (r, import_loop-new fuel files name stack seen new made ∙ ran)
  ]
]
