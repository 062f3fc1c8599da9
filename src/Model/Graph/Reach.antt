-- ===== src/Model/Graph/Reach.antt =====
-- `_can_reach` decides whether a path of edges leads from one message type to another.
use protocyte.Common.{
  ℕ, zero, suc, ◌+◌, ◌≡◌, refl, sym, ap, subst, ◌∙◌, ◌↔◌, ◌⊎◌, arith, Bool, true, false, some, List,
  [], ◌∷◌, Bytes, text_eq, text_eq_sound, text_eq_refl, text_eq_comm, text_in, Bool-cases, inl, inr,
  ||-right,
}
use protocyte.Model.Graph.{Graph, successors, push_all, can_reach_loop, unseen_edges, can_reach}
use protocyte.Model.Graph.Ends.{can_reach_loop_ends}

-- A path of edges from `a` to `b`; the empty path leads from a name to itself.
pub data Reaches (graph : Graph) : Bytes → Bytes → Type 0 where
  here : (a : Bytes) → Reaches graph a a
  step :
      (a b c : Bytes)
      → text_in b (successors graph a) ≡ true
      → Reaches graph b c
      → Reaches graph a c

pub text_in-cons :
    (a x : Bytes) (xs : List Bytes) → text_in a (x ∷ xs) ≡ true → (a ≡ x) ⊎ (text_in a xs ≡ true)
text_in-cons a x xs found = elim (Bool-cases (text_eq a x)) [
  | inl same ↦ inl (text_eq_sound a x same)
  | inr other ↦ inr (rw other at found)
]

pub text_in-push_all_stack :
    (a : Bytes) (names stack : List Bytes)
    → text_in a stack ≡ true
    → text_in a (push_all names stack) ≡ true
unfolding push_all
text_in-push_all_stack a [] stack found = found
text_in-push_all_stack a (name ∷ names) stack found =
    text_in-push_all_stack a names (name ∷ stack) (||-right (text_eq a name) _ found)

pub text_in-push_all :
    (a : Bytes) (names stack : List Bytes)
    → text_in a names ≡ true
    → text_in a (push_all names stack) ≡ true
unfolding push_all
text_in-push_all a [] stack found = cc
text_in-push_all a (name ∷ names) stack found = elim (Bool-cases (text_eq a name)) [
  | inl same ↦ text_in-push_all_stack a names (name ∷ stack) (rw same refl)
  | inr other ↦ text_in-push_all a names (name ∷ stack) (rw other at found)
]

push_all-text_in :
    (a : Bytes) (names stack : List Bytes)
    → text_in a (push_all names stack) ≡ true
    → (text_in a names ≡ true) ⊎ (text_in a stack ≡ true)
unfolding push_all
push_all-text_in a [] stack found = inr found
push_all-text_in a (name ∷ names) stack found =
    elim (push_all-text_in a names (name ∷ stack) found) [
      | inl named ↦ inl (||-right (text_eq a name) _ named)
      | inr stacked ↦ elim (Bool-cases (text_eq a name)) [
        | inl same ↦ inl (rw same refl)
        | inr other ↦ inr (rw other at stacked)
      ]
    ]

-- `found` is true only of a goal that some name of the stack reaches.
can_reach_loop_sound :
    (fuel : ℕ) (graph : Graph) (goal : Bytes) (stack seen : List Bytes)
    → can_reach_loop fuel graph goal stack seen ≡ some true
    → (a : Bytes) × (text_in a stack ≡ true) × Reaches graph a goal
unfolding can_reach_loop
can_reach_loop_sound zero graph goal stack seen ran = cc
can_reach_loop_sound (suc fuel) graph goal [] seen ran = cc
can_reach_loop_sound (suc fuel) graph goal (current ∷ stack) seen ran =
    let first : text_in current (current ∷ stack) ≡ true = rw (text_eq_refl current) refl in
    elim (Bool-cases (text_eq current goal)) [
      | inl done ↦ (
        current,
        first,
        subst (Reaches graph current) (text_eq_sound current goal done) (here current),
      )
      | inr more ↦ elim (Bool-cases (text_in current seen)) [
        | inl old ↦
            let (a, on, path) =
              can_reach_loop_sound fuel graph goal stack seen (rw (more, old) at ran) in
            (a, ||-right (text_eq a current) _ on, path)
        | inr new ↦
            let names = successors graph current in
            let (a, on, path) =
              can_reach_loop_sound fuel graph goal (push_all names stack) (current ∷ seen)
                (rw (more, new) at ran) in
            elim (push_all-text_in a names stack on) [
              | inl edge ↦ (current, first, step current a goal edge path)
              | inr below ↦ (a, ||-right (text_eq a current) _ below, path)
            ]
      ]
    ]

-- Every edge out of a name that was seen leads to one that was seen or waits on the stack.
IsClosed : Graph → List Bytes → List Bytes → Type 0
IsClosed graph stack seen =
    (a b : Bytes)
    → text_in a seen ≡ true
    → text_in b (successors graph a) ≡ true
    → (text_in b seen ≡ true) ⊎ (text_in b stack ≡ true)

-- A path cannot leave a set of seen names that nothing leads out of.
closed_path :
    (graph : Graph) (seen : List Bytes) {a goal : Bytes}
    → IsClosed graph [] seen
    → Reaches graph a goal
    → text_in a seen ≡ true
    → text_in goal seen ≡ true
unfolding IsClosed
closed_path graph seen closed (here a) found = found
closed_path graph seen closed (step a b c edge path) found = elim (closed a b found edge) [
  | inl inside ↦ closed_path graph seen closed path inside
  | inr on ↦ cc
]

skip_seen :
    (graph : Graph) (current : Bytes) (stack seen : List Bytes)
    → text_in current seen ≡ true
    → IsClosed graph (current ∷ stack) seen
    → IsClosed graph stack seen
unfolding IsClosed
skip_seen graph current stack seen old closed = λ a b found edge. elim (closed a b found edge) [
  | inl inside ↦ inl inside
  | inr on ↦ elim (text_in-cons b current stack on) [
    | inl same ↦ inl (subst (λ n. text_in n seen ≡ true) (sym same) old)
    | inr below ↦ inr below
  ]
]

visit_unseen :
    (graph : Graph) (current : Bytes) (stack seen : List Bytes)
    → IsClosed graph (current ∷ stack) seen
    → IsClosed graph (push_all (successors graph current) stack) (current ∷ seen)
unfolding IsClosed
visit_unseen graph current stack seen closed = λ a b found edge.
    let names = successors graph current in
    elim (text_in-cons a current seen found) [
      | inl same ↦ inr (
          text_in-push_all b names stack
            (subst (λ n. text_in b (successors graph n) ≡ true) same edge))
      | inr inside ↦ elim (closed a b inside edge) [
        | inl kept ↦ inl (||-right (text_eq b current) _ kept)
        | inr on ↦ elim (text_in-cons b current stack on) [
          | inl same ↦ inl (rw (same, text_eq_refl current) refl)
          | inr below ↦ inr (text_in-push_all_stack b names stack below)
        ]
      ]
    ]

waiting_skip :
    (current : Bytes) (stack seen : List Bytes) (a : Bytes)
    → text_in current seen ≡ true
    → (text_in a seen ≡ true) ⊎ (text_in a (current ∷ stack) ≡ true)
    → (text_in a seen ≡ true) ⊎ (text_in a stack ≡ true)
waiting_skip current stack seen a old (inl inside) = inl inside
waiting_skip current stack seen a old (inr on) = elim (text_in-cons a current stack on) [
  | inl same ↦ inl (subst (λ n. text_in n seen ≡ true) (sym same) old)
  | inr below ↦ inr below
]

waiting_visit :
    (graph : Graph) (current : Bytes) (stack seen : List Bytes) (a : Bytes)
    → (text_in a seen ≡ true) ⊎ (text_in a (current ∷ stack) ≡ true)
    → (text_in a (current ∷ seen) ≡ true)
      ⊎ (text_in a (push_all (successors graph current) stack) ≡ true)
waiting_visit graph current stack seen a (inl inside) = inl (||-right (text_eq a current) _ inside)
waiting_visit graph current stack seen a (inr on) = elim (text_in-cons a current stack on) [
  | inl same ↦ inl (rw (same, text_eq_refl current) refl)
  | inr below ↦ inr (text_in-push_all_stack a (successors graph current) stack below)
]

-- When the loop answers no, nothing seen and nothing on the stack reaches the goal.
can_reach_loop_complete :
    (fuel : ℕ) (graph : Graph) (goal : Bytes) (stack seen : List Bytes)
    → can_reach_loop fuel graph goal stack seen ≡ some false
    → IsClosed graph stack seen
    → text_in goal seen ≡ false
    → (a : Bytes) → (text_in a seen ≡ true) ⊎ (text_in a stack ≡ true)
    → ¬ Reaches graph a goal
unfolding can_reach_loop
can_reach_loop_complete zero graph goal stack seen ran closed unseen a from path = cc
can_reach_loop_complete (suc fuel) graph goal [] seen ran closed unseen a (inl inside) path =
    let reached = closed_path graph seen closed path inside in cc
can_reach_loop_complete (suc fuel) graph goal [] seen ran closed unseen a (inr on) path = cc
can_reach_loop_complete (suc fuel) graph goal (current ∷ stack) seen ran closed unseen a from path =
    elim (Bool-cases (text_eq current goal)) [
      | inl done ↦ let wrong = (rw done at ran) in cc
      | inr more ↦ elim (Bool-cases (text_in current seen)) [
        | inl old ↦
            can_reach_loop_complete fuel graph goal stack seen (rw (more, old) at ran)
              (skip_seen graph current stack seen old closed) unseen a
              (waiting_skip current stack seen a old from) path
        | inr new ↦
            can_reach_loop_complete fuel graph goal (push_all (successors graph current) stack)
              (current ∷ seen) (rw (more, new) at ran)
              (visit_unseen graph current stack seen closed)
              (rw (text_eq_comm goal current, more) unseen) a
              (waiting_visit graph current stack seen a from) path
      ]
    ]

nothing_seen : (graph : Graph) (stack : List Bytes) → IsClosed graph stack []
unfolding IsClosed
nothing_seen graph stack = λ a b found edge. cc

reached :
    (graph : Graph) (start goal : Bytes) (fuel : ℕ)
    → can_reach_loop fuel graph goal (start ∷ []) [] ≡ some true
    → Reaches graph start goal
reached graph start goal fuel ran =
    let (a, on, path) = can_reach_loop_sound fuel graph goal (start ∷ []) [] ran in
    elim (text_in-cons a start [] on) [
      | inl same ↦ subst (λ n. Reaches graph n goal) same path
      | inr none_left ↦ cc
    ]

-- `_can_reach` ends, and answers true exactly when a path of edges of the graph, the empty one
-- included, leads from `start` to `goal`; a cycle of the graph does not keep it from ending.
pub can_reach-Reaches :
    (graph : Graph) (start goal : Bytes)
    → (found : Bool) × (can_reach graph start goal ≡ some found)
      × ((found ≡ true) ↔ Reaches graph start goal)
unfolding can_reach can_reach_loop
can_reach-Reaches graph start goal =
    let fuel = unseen_edges graph [] + 2 in
    let (found, ran) = can_reach_loop_ends fuel graph goal (start ∷ []) [] (omega arith) in
    (
      found,
      ran,
      (
        λ positive. reached graph start goal fuel (ran ∙ ap some positive),
        λ path. elim (Bool-cases found) [
          | inl positive ↦ positive
          | inr negative ↦ absurd (
              can_reach_loop_complete fuel graph goal (start ∷ []) [] (ran ∙ ap some negative)
                (nothing_seen graph (start ∷ [])) refl start (inr (rw (text_eq_refl start) refl))
                path)
        ],
      ),
    )
