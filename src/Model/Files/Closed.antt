-- ===== src/Model/Files/Closed.antt =====
-- The files that `_validate_import_graph` has seen are closed under imports.
use protocyte.Common.{
  ℕ, zero, suc, ◌+◌, ◌≡◌, refl, sym, ap, subst, ◌∙◌, ◌⊎◌, arith, true, some, some_injective, List,
  [], ◌∷◌, Result, ok, ok-injective, Bytes, text_eq, text_eq_refl, text_in, length, Bool-cases, inl,
  inr, ||-right,
}
use protocyte.Model.Graph.{Graph, successors, push_all, unseen_edges}
use protocyte.Model.Graph.Ends.{length-push_all}
use protocyte.Model.Graph.Reach.{text_in-cons, text_in-push_all, text_in-push_all_stack}
use protocyte.Model.Files.{FileError, is_left_out, import_round, import_loop, validate_import_graph}
use protocyte.Model.Files.Rounds.{
  IsLoopClosed, import_round-kept, Result-cases, import_loop-seen, import_loop-new,
  import_loop-ends,
}

skip_closed :
    (files : Graph) (name : Bytes) (stack seen : List Bytes)
    → text_in name seen ≡ true
    → IsLoopClosed files (name ∷ stack) seen
    → IsLoopClosed files stack seen
unfolding IsLoopClosed
skip_closed files name stack seen old closed = λ a b found edge. elim (closed a b found edge) [
  | inl inside ↦ inl inside
  | inr (inr free) ↦ inr (inr free)
  | inr (inl on) ↦ elim (text_in-cons b name stack on) [
    | inl same ↦ inl (subst (λ n. text_in n seen ≡ true) (sym same) old)
    | inr below ↦ inr (inl below)
  ]
]

visit_closed :
    (files : Graph) (name : Bytes) (stack seen pushed : List Bytes)
    → ((b : Bytes)
        → text_in b (successors files name) ≡ true
        → (text_in b pushed ≡ true) ⊎ (is_left_out files b ≡ true))
    → IsLoopClosed files (name ∷ stack) seen
    → IsLoopClosed files (push_all pushed stack) (name ∷ seen)
unfolding IsLoopClosed
visit_closed files name stack seen pushed kept closed = λ a b found edge.
    elim (text_in-cons a name seen found) [
      | inl same ↦ elim (kept b (subst (λ n. text_in b (successors files n) ≡ true) same edge)) [
        | inl new ↦ inr (inl (text_in-push_all b pushed stack new))
        | inr free ↦ inr (inr free)
      ]
      | inr inside ↦ elim (closed a b inside edge) [
        | inl before ↦ inl (||-right (text_eq b name) _ before)
        | inr (inr free) ↦ inr (inr free)
        | inr (inl on) ↦ elim (text_in-cons b name stack on) [
          | inl same ↦ inl (rw (same, text_eq_refl name) refl)
          | inr below ↦ inr (inl (text_in-push_all_stack b pushed stack below))
        ]
      ]
    ]

-- Closed under imports, but for a file descriptor.proto that the request does not have.
pub IsImportClosed : Graph → List Bytes → Type 0
IsImportClosed files seen =
    (a b : Bytes)
    → text_in a seen ≡ true
    → text_in b (successors files a) ≡ true
    → (text_in b seen ≡ true) ⊎ (is_left_out files b ≡ true)

nothing_waits :
    (files : Graph) (seen : List Bytes)
    → IsLoopClosed files [] seen
    → IsImportClosed files seen
      × ((a : Bytes) → (text_in a seen ≡ true) ⊎ (text_in a [] ≡ true) → text_in a seen ≡ true)
unfolding IsLoopClosed IsImportClosed
nothing_waits files seen closed = (
  λ a b found edge. elim (closed a b found edge) [
    | inl inside ↦ inl inside
    | inr (inl on) ↦ cc
    | inr (inr free) ↦ inr free
  ],
  λ a from. elim from [ inl inside ↦ inside | inr on ↦ cc ],
)

still_seen :
    (name : Bytes) (stack seen : List Bytes) (a : Bytes)
    → text_in name seen ≡ true
    → (text_in a seen ≡ true) ⊎ (text_in a (name ∷ stack) ≡ true)
    → (text_in a seen ≡ true) ⊎ (text_in a stack ≡ true)
still_seen name stack seen a old (inl inside) = inl inside
still_seen name stack seen a old (inr on) = elim (text_in-cons a name stack on) [
  | inl same ↦ inl (subst (λ n. text_in n seen ≡ true) (sym same) old)
  | inr below ↦ inr below
]

still_waits :
    (name : Bytes) (stack seen pushed : List Bytes) (a : Bytes)
    → (text_in a seen ≡ true) ⊎ (text_in a (name ∷ stack) ≡ true)
    → (text_in a (name ∷ seen) ≡ true) ⊎ (text_in a (push_all pushed stack) ≡ true)
still_waits name stack seen pushed a (inl inside) = inl (||-right (text_eq a name) _ inside)
still_waits name stack seen pushed a (inr on) = elim (text_in-cons a name stack on) [
  | inl same ↦ inl (rw (same, text_eq_refl name) refl)
  | inr below ↦ inr (text_in-push_all_stack a pushed stack below)
]

import_loop-closed :
    (fuel : ℕ) (files : Graph) (stack seen : List Bytes) {result : List Bytes}
    → import_loop fuel files stack seen ≡ some (ok result)
    → IsLoopClosed files stack seen
    → IsImportClosed files result
      × ((a : Bytes) → (text_in a seen ≡ true) ⊎ (text_in a stack ≡ true) → text_in a result ≡ true)
unfolding import_loop IsLoopClosed IsImportClosed
import_loop-closed zero files stack seen ran closed = cc
import_loop-closed (suc fuel) files [] seen ran closed =
    let same = ok-injective (some_injective ran) in
    subst
      (λ r.
        IsImportClosed files r
        × ((a : Bytes) → (text_in a seen ≡ true) ⊎ (text_in a [] ≡ true) → text_in a r ≡ true))
      same (nothing_waits files seen closed)
import_loop-closed (suc fuel) files (name ∷ stack) seen ran closed =
    elim (Bool-cases (text_in name seen)) [
      | inl old ↦
          let (whole, has) =
            import_loop-closed fuel files stack seen
              (sym (import_loop-seen fuel files name stack seen old) ∙ ran)
              (skip_closed files name stack seen old closed) in
          (whole, λ a from. has a (still_seen name stack seen a old from))
      | inr new ↦ elim (Result-cases (import_round files name)) [
        | inl (e, raised) ↦
            let wrong = sym (import_loop-new fuel files name stack seen new raised) ∙ ran in cc
        | inr (pushed, made) ↦
            let (whole, has) =
              import_loop-closed fuel files (push_all pushed stack) (name ∷ seen)
                (sym (import_loop-new fuel files name stack seen new made) ∙ ran)
                (visit_closed files name stack seen pushed (import_round-kept files name made).1
                  closed) in
            (whole, λ a from. has a (still_waits name stack seen pushed a from))
      ]
    ]

-- What the import graph's check promises of the files that it returns.
pub record IsImportClosure (files : Graph) (roots seen : List Bytes) : Type 0 where
  pub has_roots : (a : Bytes) → text_in a roots ≡ true → text_in a seen ≡ true
  pub closed : IsImportClosed files seen

none_seen : (files : Graph) (stack : List Bytes) → IsLoopClosed files stack []
unfolding IsLoopClosed
none_seen files stack = λ a b found edge. cc

-- `_validate_import_graph` ends, also when files import each other in a cycle. If it returns, the
-- names that it returns have all roots among them, and with a file all of its imports, but for a
-- descriptor.proto that the request does not have.
pub validate_import_graph-IsImportClosure :
    (files : Graph) (roots : List Bytes)
    → (r : Result FileError (List Bytes)) × (validate_import_graph files roots ≡ some r)
      × ((seen : List Bytes) → r ≡ ok seen → IsImportClosure files roots seen)
unfolding validate_import_graph
validate_import_graph-IsImportClosure files roots =
    let stack = push_all roots [] in
    let fuel = unseen_edges files [] + length roots + 1 in
    let (r, ran) = import_loop-ends fuel files stack [] (omega (arith, length-push_all roots [])) in
    (
      r,
      ran,
      λ seen returned.
          let (whole, has) =
            import_loop-closed fuel files stack [] (ran ∙ ap some returned)
              (none_seen files stack) in
          record {
            has_roots = λ a root. has a (inr (text_in-push_all a roots [] root));
            closed = whole;
          },
    )
