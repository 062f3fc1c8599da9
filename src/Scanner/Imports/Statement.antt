-- ===== src/Scanner/Imports/Statement.antt =====
-- Import statements are found, comments are passed over.
use protocyte.Common.{
  ◌≡◌, refl, sym, ap, ◌∙◌, Bool, true, List, [], ◌∷◌, ◌++◌, append-nil, append_assoc, map, Bytes,
  codes, all, &&-true, text_eq,
}
use protocyte.Scanner.Literal.Progress.{is_plain, decode_string-plain}
use protocyte.Scanner.Imports.{Expectation, ScanState, scan_step, run, import_names}
use protocyte.Scanner.Imports.Run.{run_step}

-- The states between statements and within one.
abbrev between : List Bytes → ScanState
between found = record { expectation = Expectation.idle; import_name = []; imports = found }

abbrev wanting : Expectation → List Bytes → ScanState
wanting expectation found = record { expectation = expectation; import_name = []; imports = found }

abbrev named : Bytes → List Bytes → ScanState
named name found = record {
  expectation = Expectation.adjacent_string_or_end;
  import_name = name;
  imports = found;
}

pub data Qualifier : Type 0 where
  absent option_ public_ weak_ : Qualifier

-- The text of a qualifier, with the blank behind it.
abbrev pub qualifier_text : Qualifier → Bytes
qualifier_text Qualifier.absent = []
qualifier_text Qualifier.option_ = codes "option "
qualifier_text Qualifier.public_ = codes "public "
qualifier_text Qualifier.weak_ = codes "weak "

run_import :
    (found : List Bytes) (text : Bytes)
    → run (between found) (codes "import " ++ text)
      ≡ run (wanting Expectation.qualifier_or_string found) text
unfolding scan_step text_eq
run_import found text =
    run_step (between found) b'i' (codes "mport " ++ text)
    ∙ run_step (wanting Expectation.qualifier_or_string found) b' ' text

-- A qualifier leaves a state that still wants the literal.
abbrev after_qualifier : Qualifier → Expectation
after_qualifier Qualifier.absent = Expectation.qualifier_or_string
after_qualifier _ = Expectation.string

run_qualifier :
    (q : Qualifier) (found : List Bytes) (text : Bytes)
    → run (wanting Expectation.qualifier_or_string found) (qualifier_text q ++ text)
      ≡ run (wanting (after_qualifier q) found) text
unfolding scan_step text_eq
run_qualifier Qualifier.absent found text = refl
run_qualifier Qualifier.option_ found text =
    run_step (wanting Expectation.qualifier_or_string found) b'o' (codes "ption " ++ text)
    ∙ run_step (wanting Expectation.string found) b' ' text
run_qualifier Qualifier.public_ found text =
    run_step (wanting Expectation.qualifier_or_string found) b'p' (codes "ublic " ++ text)
    ∙ run_step (wanting Expectation.string found) b' ' text
run_qualifier Qualifier.weak_ found text =
    run_step (wanting Expectation.qualifier_or_string found) b'w' (codes "eak " ++ text)
    ∙ run_step (wanting Expectation.string found) b' ' text

literal_step :
    (q : Qualifier) (found : List Bytes) (name text : Bytes)
    → all (is_plain b'"') name ≡ true
    → scan_step (wanting (after_qualifier q) found) b'"' (name ++ b'"' ∷ text)
      ≡ (named name found, text)
unfolding scan_step
literal_step Qualifier.absent found name text h = rw (decode_string-plain b'"' name text refl h)
literal_step Qualifier.option_ found name text h = rw (decode_string-plain b'"' name text refl h)
literal_step Qualifier.public_ found name text h = rw (decode_string-plain b'"' name text refl h)
literal_step Qualifier.weak_ found name text h = rw (decode_string-plain b'"' name text refl h)

run_literal :
    (q : Qualifier) (found : List Bytes) (name text : Bytes)
    → all (is_plain b'"') name ≡ true
    → run (wanting (after_qualifier q) found) (b'"' ∷ (name ++ b'"' ∷ text))
      ≡ run (named name found) text
run_literal q found name text h =
    run_step (wanting (after_qualifier q) found) b'"' (name ++ b'"' ∷ text)
    ∙ ap (λ p. run p.0 p.1) (literal_step q found name text h)

run_end :
    (found : List Bytes) (name text : Bytes)
    → run (named name found) (codes ";\n" ++ text) ≡ run (between (found ++ name ∷ [])) text
unfolding scan_step
run_end found name text =
    run_step (named name found) b';' (b'\n' ∷ text)
    ∙ run_step (between (found ++ name ∷ [])) b'\n' text

-- `import public "name";` and the like, on a line.
pub statement : Qualifier → Bytes → Bytes → Bytes
statement q name text =
    codes "import " ++ (qualifier_text q ++ (b'"' ∷ (name ++ b'"' ∷ (codes ";\n" ++ text))))

run-statement :
    (q : Qualifier) (found : List Bytes) (name text : Bytes)
    → all (is_plain b'"') name ≡ true
    → run (between found) (statement q name text) ≡ run (between (found ++ name ∷ [])) text
unfolding statement
run-statement q found name text h =
    run_import found _
    ∙ run_qualifier q found _
    ∙ run_literal q found name (codes ";\n" ++ text) h
    ∙ run_end found name text

pub statements : List (Qualifier × Bytes) → Bytes
statements [] = []
statements ((q, name) ∷ rest) = statement q name (statements rest)

abbrev pub names_of : List (Qualifier × Bytes) → List Bytes
names_of = map (λ p. p.1)

abbrev pub are_plain : List (Qualifier × Bytes) → Bool
are_plain = all (λ p. all (is_plain b'"') p.1)

run-statements :
    (written : List (Qualifier × Bytes)) (found : List Bytes)
    → are_plain written ≡ true
    → run (between found) (statements written) ≡ between (found ++ names_of written)
unfolding statements
run-statements [] found h = unfold run in ap between (sym (append-nil found))
run-statements ((q, name) ∷ rest) found h =
    let (here, more) = &&-true (all (is_plain b'"') name) (are_plain rest) h in
    run-statement q found name (statements rest) here
    ∙ run-statements rest (found ++ name ∷ []) more
    ∙ ap between (append_assoc found (name ∷ []) (names_of rest))

-- The names of import statements, with or without a qualifier, whose names hold no quote and no
-- backslash, are found, in their order and no others.
pub import_names-statements :
    (written : List (Qualifier × Bytes))
    → are_plain written ≡ true
    → import_names (statements written) ≡ names_of written
unfolding import_names
import_names-statements written h = ap (λ (s : ScanState). s.imports) (run-statements written [] h)
