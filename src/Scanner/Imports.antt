-- ===== src/Scanner/Imports.antt =====
-- `_import_names` of src/protocyte/import_scanner.py: the import statements of a .proto file.
pub mod Run
pub mod Statement
pub mod Comment
use protocyte.Common.{
  ℕ, zero, suc, ◌+◌, Bool, true, false, not, ◌&&◌, ◌||◌, Option, none, some, List, [], ◌∷◌, ◌++◌,
  Bytes, codes, leb, ◌==◌, if◌then◌else◌, length, drop, starts_with, text_eq,
}
use protocyte.Scanner.Literal.{leading, decode_string}

unfoldable pub is_identifier_start : ℕ → Bool
is_identifier_start c = c == b'_' || (leb b'A' c && leb c b'Z') || (leb b'a' c && leb c b'z')

unfoldable pub is_identifier_continue : ℕ → Bool
unfolding is_identifier_start
is_identifier_continue c = is_identifier_start c || (leb b'0' c && leb c b'9')

-- The values of `expectation`; `idle` is None.
pub data Expectation : Type 0 where
  idle qualifier_or_string string adjacent_string_or_end : Expectation

-- The variables of the loop beside the index.
pub record ScanState : Type 0 where
  pub expectation : Expectation
  pub import_name : Bytes
  pub imports : List Bytes

abbrev pub initial : ScanState
initial = record { expectation = Expectation.idle; import_name = []; imports = [] }

-- expectation = None; import_name.clear()
abbrev pub reset : ScanState → ScanState
reset s = record s { expectation = Expectation.idle; import_name = [] }

-- The data from the next line feed on.
unfoldable pub skip_line : Bytes → Bytes
skip_line [] = []
skip_line (c ∷ text) = if c == b'\n' then c ∷ text else skip_line text

-- The data behind the next `*/`, or the end.
unfoldable pub skip_comment : Bytes → Bytes
unfolding starts_with
skip_comment [] = []
skip_comment (c ∷ text) =
    if starts_with (codes "*/") (c ∷ text) then drop 1 text else skip_comment text

unfoldable pub is_space : ℕ → Bool
is_space c = c == b' ' || c == b'\t' || c == b'\r' || c == b'\n' || c == 11 || c == 12

-- What an identifier does to the expectation.
unfoldable pub after_identifier : Bytes → ScanState → ScanState
unfolding text_eq
after_identifier identifier s = elim s.expectation [
  | Expectation.idle ↦
      if text_eq identifier (codes "import")
      then record s { expectation = Expectation.qualifier_or_string; import_name = [] }
      else reset s
  | Expectation.qualifier_or_string ↦
      if text_eq identifier (codes "option")
        || text_eq identifier (codes "public")
        || text_eq identifier (codes "weak")
      then record s { expectation = Expectation.string }
      else reset s
  | Expectation.string ↦ reset s
  | Expectation.adjacent_string_or_end ↦ reset s
]

-- expectation in {"qualifier_or_string", "string", "adjacent_string_or_end"}
unfoldable pub is_capturing : Expectation → Bool
is_capturing Expectation.idle = false
is_capturing Expectation.qualifier_or_string = true
is_capturing Expectation.string = true
is_capturing Expectation.adjacent_string_or_end = true

unfoldable pub after_string : Option Bytes → ScanState → ScanState
unfolding is_capturing
after_string none s = reset s
after_string (some value) s =
    if is_capturing s.expectation
    then record s {
      expectation = Expectation.adjacent_string_or_end;
      import_name = s.import_name ++ value;
    }
    else reset s

unfoldable pub after_semicolon : ScanState → ScanState
after_semicolon s = elim s.expectation [
  | Expectation.adjacent_string_or_end ↦ record s {
    expectation = Expectation.idle;
    import_name = [];
    imports = s.imports ++ s.import_name ∷ [];
  }
  | _ ↦ reset s
]

-- One round of the loop at the byte `c`: the new variables, and the data that is left.
unfoldable pub scan_step : ScanState → ℕ → Bytes → ScanState × Bytes
unfolding starts_with skip_line skip_comment is_identifier_continue leading after_identifier
    decode_string after_string after_semicolon is_space
scan_step s c text =
    let identifier = leading is_identifier_continue (length text) text in
    let (behind, value) = decode_string c (is_capturing s.expectation) text in
    if c == b'/' && starts_with (codes "/") text
    then (s, skip_line (drop 1 text))
    else if c == b'/' && starts_with (codes "*") text
    then (s, skip_comment (drop 1 text))
    else if is_identifier_start c
    then (after_identifier (c ∷ identifier) s, drop (length identifier) text)
    else if c == b'"' || c == b'\''
    then (after_string value s, behind)
    else if is_space c
    then (s, text)
    else if c == b';'
    then (after_semicolon s, text)
    else (reset s, text)

-- The loop; the fuel bounds the rounds.
unfoldable pub scan_loop : ℕ → ScanState → Bytes → ScanState
unfolding scan_step
scan_loop zero s text = s
scan_loop (suc fuel) s [] = s
scan_loop (suc fuel) s (c ∷ text) = let (s', rest) = scan_step s c text in scan_loop fuel s' rest

unfoldable pub run : ScanState → Bytes → ScanState
unfolding scan_loop
run s text = scan_loop (length text) s text

unfoldable pub import_names : Bytes → List Bytes
unfolding run
import_names data_ = (run initial data_).imports
