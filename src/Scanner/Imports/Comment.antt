-- ===== src/Scanner/Imports/Comment.antt =====
-- Comments are passed over.
use protocyte.Common.{
  not-true, ℕ, ◌≡◌, refl, ap, ◌∙◌, Bool, true, not, ◌&&◌, [], ◌∷◌, ◌++◌, Bytes, codes, ◌==◌,
  starts_with, all, &&-true,
}
use protocyte.Scanner.Imports.{ScanState, skip_line, skip_comment, scan_step, run}
use protocyte.Scanner.Imports.Run.{run_step}

skip_line-append :
    (comment text : Bytes)
    → all (λ c. not (c == b'\n')) comment ≡ true
    → skip_line (comment ++ b'\n' ∷ text) ≡ b'\n' ∷ text
unfolding skip_line
skip_line-append [] text h = refl
skip_line-append (c ∷ comment) text h =
    let (here, rest) = &&-true (not (c == b'\n')) _ h in
    rw (not-true (c == b'\n') here) (skip_line-append comment text rest)

-- No byte of the comment begins a "*/" that ends before the comment's own close.
abbrev pub has_no_close : Bytes → Bool
has_no_close [] = true
has_no_close (c ∷ text) =
    not (starts_with (codes "*/") ((c ∷ text) ++ codes "*")) && has_no_close text

starts_close :
    (c : ℕ) (comment text : Bytes)
    → starts_with (codes "*/") ((c ∷ comment) ++ (codes "*/" ++ text))
      ≡ starts_with (codes "*/") ((c ∷ comment) ++ codes "*")
unfolding starts_with
starts_close c [] text = refl
starts_close c (d ∷ comment) text = refl

skip_comment-append :
    (comment text : Bytes)
    → has_no_close comment ≡ true
    → skip_comment (comment ++ (codes "*/" ++ text)) ≡ text
unfolding skip_comment
skip_comment-append [] text h = unfold starts_with in refl
skip_comment-append (c ∷ comment) text h =
    let (here, rest) = &&-true (not (starts_with (codes "*/") ((c ∷ comment) ++ codes "*"))) _ h in
    rw (starts_close c comment text, not-true _ here) (skip_comment-append comment text rest)

-- At any point of the scan, a line comment changes neither what was read of a statement nor the
-- imports that are found behind it.
pub run_line_comment :
    (s : ScanState) (comment text : Bytes)
    → all (λ c. not (c == b'\n')) comment ≡ true
    → run s (codes "//" ++ (comment ++ b'\n' ∷ text)) ≡ run s text
unfolding scan_step
run_line_comment s comment text h =
    run_step s b'/' (b'/' ∷ (comment ++ b'\n' ∷ text))
    ∙ ap (run s) (skip_line-append comment text h)
    ∙ run_step s b'\n' text

-- The same of a block comment that ends at its first "*/".
pub run_block_comment :
    (s : ScanState) (comment text : Bytes)
    → has_no_close comment ≡ true
    → run s (codes "/*" ++ (comment ++ (codes "*/" ++ text))) ≡ run s text
unfolding scan_step
run_block_comment s comment text h =
    run_step s b'/' (b'*' ∷ (comment ++ (codes "*/" ++ text)))
    ∙ ap (run s) (skip_comment-append comment text h)
