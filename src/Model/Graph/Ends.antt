-- ===== src/Model/Graph/Ends.antt =====
-- The loop of `_can_reach` ends.
use protocyte.Common.{
  ℕ, zero, suc, ◌+◌, ◌≤◌, ◌<◌, ◌≡◌, refl, ap, ◌∙◌, arith, Bool, true, false, some, List, [], ◌∷◌,
  Bytes, text_eq, text_eq_sound, text_in, length, Bool-cases, inl, inr,
}
use protocyte.Model.Graph.{Graph, successors, push_all, can_reach_loop, unseen_edges}

pub length-push_all :
    (names stack : List Bytes) → length (push_all names stack) ≡ length names + length stack
unfolding push_all
length-push_all [] stack = omega arith
length-push_all (name ∷ names) stack = omega (arith, length-push_all names (name ∷ stack))

-- Seeing more names leaves fewer edges.
unseen_edges_cons :
    (graph : Graph) (current : Bytes) (seen : List Bytes)
    → unseen_edges graph (current ∷ seen) ≤ unseen_edges graph seen
unfolding unseen_edges
unseen_edges_cons [] current seen = omega arith
unseen_edges_cons ((key, targets) ∷ graph) current seen =
    ground (arith, unseen_edges_cons graph current seen)

-- Seeing a name for the first time takes away its edges.
pub unseen_edges_visit :
    (graph : Graph) (current : Bytes) (seen : List Bytes)
    → text_in current seen ≡ false
    → unseen_edges graph (current ∷ seen) + length (successors graph current)
      ≤ unseen_edges graph seen
unfolding unseen_edges successors
unseen_edges_visit [] current seen new = omega arith
unseen_edges_visit ((key, targets) ∷ graph) current seen new =
    elim (Bool-cases (text_eq key current)) [
      | inl here ↦
          let same = text_eq_sound key current here in
          let fresh : text_in key seen ≡ false = ap (λ k. text_in k seen) same ∙ new in
          rw (here, fresh) (omega (arith, unseen_edges_cons graph current seen))
      | inr other ↦ rw other (ground (arith, unseen_edges_visit graph current seen new))
    ]

-- With more fuel than names on the stack and edges to follow, the loop returns.
pub can_reach_loop_ends :
    (fuel : ℕ) (graph : Graph) (goal : Bytes) (stack seen : List Bytes)
    → length stack + unseen_edges graph seen < fuel
    → (found : Bool) × (can_reach_loop fuel graph goal stack seen ≡ some found)
unfolding can_reach_loop
can_reach_loop_ends zero graph goal stack seen room = absurd (omega arith)
can_reach_loop_ends (suc fuel) graph goal [] seen room = (false, refl)
can_reach_loop_ends (suc fuel) graph goal (current ∷ stack) seen room =
    elim (Bool-cases (text_eq current goal)) [
      | inl done ↦ (true, rw done)
      | inr more ↦ elim (Bool-cases (text_in current seen)) [
        | inl old ↦
            let (found, e) = can_reach_loop_ends fuel graph goal stack seen (omega arith) in
            (found, rw (more, old) e)
        | inr new ↦
            let next = push_all (successors graph current) stack in
            let (found, e) = can_reach_loop_ends fuel graph goal next (current ∷ seen) (
              omega (
                arith,
                length-push_all (successors graph current) stack,
                unseen_edges_visit graph current seen new,
              )) in
            (found, rw (more, new) e)
      ]
    ]
