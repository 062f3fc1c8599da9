-- ===== src/Scanner/Imports/Run.antt =====
-- The loop of `_import_names` ends: each round reads a byte, and more rounds change nothing.
use protocyte.Common.{
  ℕ, zero, suc, ◌≤◌, ◌≡◌, refl, arith, ◌&&◌, ◌||◌, [], ◌∷◌, Bytes, codes, ◌==◌, length, length-drop,
  drop, starts_with, Bool-cases, inl, inr,
}
use protocyte.Scanner.Literal.{leading}
use protocyte.Scanner.Literal.Progress.{decode_string-le}
use protocyte.Scanner.Imports.{
  ScanState, skip_line, skip_comment, scan_step, scan_loop, run, is_identifier_start,
  is_identifier_continue, is_capturing, is_space,
}

drop-le : (n : ℕ) (text : Bytes) → length (drop n text) ≤ length text
drop-le n text = omega (arith, length-drop {0} n text)

skip_line-le : (text : Bytes) → length (skip_line text) ≤ length text
unfolding skip_line
skip_line-le [] = omega arith
skip_line-le (c ∷ text) = elim (Bool-cases (c == b'\n')) [
  | inl feed ↦ rw feed (omega arith)
  | inr other ↦ rw other (omega (arith, skip_line-le text))
]

skip_comment-le : (text : Bytes) → length (skip_comment text) ≤ length text
unfolding skip_comment
skip_comment-le [] = omega arith
skip_comment-le (c ∷ text) = elim (Bool-cases (starts_with (codes "*/") (c ∷ text))) [
  | inl close ↦ rw close (omega (arith, drop-le 1 text))
  | inr open_ ↦ rw open_ (omega (arith, skip_comment-le text))
]

-- The data behind a round is no longer than the data behind its first byte.
pub scan_step-le :
    (s : ScanState) (c : ℕ) (text : Bytes) → length (scan_step s c text).1 ≤ length text
unfolding scan_step
scan_step-le s c text = elim (Bool-cases (c == b'/' && starts_with (codes "/") text)) [
  | inl line ↦ rw line (omega (arith, skip_line-le (drop 1 text), drop-le 1 text))
  | inr p ↦ elim (Bool-cases (c == b'/' && starts_with (codes "*") text)) [
    | inl block ↦ rw (p, block) (omega (arith, skip_comment-le (drop 1 text), drop-le 1 text))
    | inr q ↦ elim (Bool-cases (is_identifier_start c)) [
      | inl word ↦
          rw (p, q, word)
            (drop-le (length (leading is_identifier_continue (length text) text)) text)
      | inr r ↦ elim (Bool-cases (c == b'"' || c == b'\'')) [
        | inl quote ↦ rw (p, q, r, quote) (decode_string-le c (is_capturing s.expectation) text)
        | inr t ↦ elim (Bool-cases (is_space c)) [
          | inl space ↦ rw (p, q, r, t, space) (omega arith)
          | inr u ↦ elim (Bool-cases (c == b';')) [
            | inl semicolon ↦ rw (p, q, r, t, u, semicolon) (omega arith)
            | inr other ↦ rw (p, q, r, t, u, other) (omega arith)
          ]
        ]
      ]
    ]
  ]
]

pub scan_loop_fuel :
    (n m : ℕ) (s : ScanState) (text : Bytes)
    → length text ≤ n
    → length text ≤ m
    → scan_loop n s text ≡ scan_loop m s text
unfolding scan_loop
scan_loop_fuel zero zero s text h k = refl
scan_loop_fuel zero (suc m) s [] h k = refl
scan_loop_fuel zero (suc m) s (c ∷ text) h k = absurd (omega arith)
scan_loop_fuel (suc n) zero s [] h k = refl
scan_loop_fuel (suc n) zero s (c ∷ text) h k = absurd (omega arith)
scan_loop_fuel (suc n) (suc m) s [] h k = refl
scan_loop_fuel (suc n) (suc m) s (c ∷ text) h k =
    let (s', rest) = scan_step s c text in
    let shorter = scan_step-le s c text in
    scan_loop_fuel n m s' rest (omega (arith, shorter)) (omega (arith, shorter))

-- The loop goes on from what its round leaves.
pub run_step :
    (s : ScanState) (c : ℕ) (text : Bytes)
    → run s (c ∷ text) ≡ run (scan_step s c text).0 (scan_step s c text).1
unfolding run
run_step s c text =
    scan_loop_fuel (length text) (length (scan_step s c text).1) (scan_step s c text).0
      (scan_step s c text).1 (scan_step-le s c text) (omega arith)
