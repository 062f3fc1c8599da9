-- ===== src/Expression/Tree/Climb.antt =====
-- From the level at which a tree is read to the levels above it.
use protocyte.Common.{
  ℕ, zero, suc, ◌≤◌, false, ◌≡◌, refl, subst, inl, inr, ◌∷◌, ◌==◌, ==_iff, length, length-append,
  Bool-cases, arith,
}
use protocyte.Expression.Syntax.{op_token, BinaryOperator, symbol, Semantics}
use protocyte.Expression.Parser.{ParserOf}
use protocyte.Expression.Tree.{
  Tree, number, string, name, boolean, call, unary, group, binary, written, row_of,
}
use protocyte.Expression.Tree.Levels.{
  spine, Parses, Chains, Chains→Parses, Parses→Chains, Chains-binary,
}

pub spine-length : (row : ℕ) (e : Tree) → spine row e ≤ length (written e)
unfolding written
spine-length row (number text) = omega arith
spine-length row (string text) = omega arith
spine-length row (name text) = omega arith
spine-length row (boolean b) = omega arith
spine-length row (call text args) = omega arith
spine-length row (unary operator e) = omega arith
spine-length row (group e) = omega arith
spine-length row (binary operator lhs rhs) =
    let here = length-append (written lhs) (op_token (symbol operator) ∷ written rhs) in
    elim (Bool-cases (row_of operator == row)) [
      | inl same ↦ rw same (omega (arith, here, spine-length row lhs))
      | inr other ↦ rw other (omega arith)
    ]

module _ {Value E : Type 0} (s : Semantics Value E) (fuel : ℕ)
    (unary_parser : ParserOf E Value) where
  -- What is known of a tree at a level: it is read there, and by the loop of the level.
  abbrev pub Reads : ℕ → Tree → Type 0
  Reads zero e = Parses s fuel unary_parser zero e
  Reads (suc row) e = Parses s fuel unary_parser (suc row) e × Chains s fuel unary_parser row e

  pub Reads-Parses : (level : ℕ) (e : Tree) → Reads level e → Parses s fuel unary_parser level e
  Reads-Parses zero e reads = reads
  Reads-Parses (suc row) e reads = reads.0

  -- A loop that has read the operators of its row stops.
  above :
      (row : ℕ) (e : Tree)
      → suc (length (written e)) ≤ fuel
      → Chains s fuel unary_parser row e
      → Reads (suc row) e
  above row e enough chains =
      (Chains→Parses s fuel unary_parser row e (omega (arith, spine-length row e)) chains, chains)

  climb :
      (level row : ℕ) (e : Tree)
      → suc (length (written e)) ≤ fuel
      → ((higher : ℕ) → suc row ≤ higher → spine higher e ≡ 0)
      → Reads (suc row) e
      → suc row ≤ level
      → Reads level e
  climb zero row e enough bare reads low = absurd (omega arith)
  climb (suc level) row e enough bare reads low = elim (Bool-cases (row == level)) [
    | inl same ↦ subst (λ n. Reads (suc n) e) ((==_iff row level).0 same) reads
    | inr other ↦
        let between : suc row ≤ level = ground arith in
        let below = Reads-Parses level e (climb level row e enough bare reads between) in
        above level e enough (Parses→Chains s fuel unary_parser level e (bare level between) below)
  ]

  -- A tree that is no binary operator's is read at every level, if the parser of unary operators
  -- reads it.
  pub Reads-unary :
      (level : ℕ) (e : Tree)
      → suc (length (written e)) ≤ fuel
      → ((row : ℕ) → spine row e ≡ 0)
      → Parses s fuel unary_parser 0 e
      → Reads level e
  Reads-unary zero e enough bare parses = parses
  Reads-unary (suc level) e enough bare parses = above level e enough (
      Parses→Chains s fuel unary_parser level e (bare level)
        (Reads-Parses level e (Reads-unary level e enough bare parses)))

  pub Reads-binary :
      (level : ℕ) (operator : BinaryOperator) (lhs rhs : Tree)
      → suc (length (written (binary operator lhs rhs))) ≤ fuel
      → suc (row_of operator) ≤ level
      → Reads (suc (row_of operator)) lhs
      → Reads (row_of operator) rhs
      → Reads level (binary operator lhs rhs)
  Reads-binary level operator lhs rhs enough low left right =
      let row = row_of operator in
      climb level row (binary operator lhs rhs) enough
        (λ higher above_row. let other : (row == higher) ≡ false = ground arith in rw other refl)
        (above row (binary operator lhs rhs) enough
          (Chains-binary s fuel unary_parser operator lhs rhs left.1 (Reads-Parses row rhs right)))
        low
