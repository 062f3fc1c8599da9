-- ===== src/Scanner/Tests.antt =====
-- Tests and worked instances for src/protocyte/import_scanner.py.
use protocyte.Common.{
  ◌≡◌, ◌↔◌, refl, true, false, some, List, [], ◌∷◌, Bytes, codes, text_eq, starts_with,
}
use protocyte.Scanner.Unicode.{encode_unicode_point}
use protocyte.Scanner.Literal.{decode_string}
use protocyte.Scanner.Imports.{Expectation, ScanState, import_names, run}
use protocyte.Scanner.Imports.Statement.{Qualifier, statements, names_of, import_names-statements}
use protocyte.Scanner.Imports.Comment.{run_line_comment, run_block_comment}
use protocyte.Scanner.VirtualPath.{
  Platform, canonicalize_virtual_path, is_masked_windows_parent_path, cmake_glob_pattern,
}
use protocyte.Scanner.VirtualPath.Glob.{Matches, cmake_glob_pattern_exact}

abbrev posix : Platform
posix = record { nt = false; cygwin = false }

abbrev windows : Platform
windows = record { nt = true; cygwin = false }

euro_sign : encode_unicode_point 0x20AC ≡ 0xE2 ∷ 0x82 ∷ 0xAC ∷ []
unfolding encode_unicode_point
euro_sign = refl

decodes_escapes :
    decode_string b'"' true (codes "a\\x41\\102\\u00e9\\n\"rest")
    ≡ (codes "rest", some (b'a' ∷ b'A' ∷ b'B' ∷ 0xC3 ∷ 0xA9 ∷ 10 ∷ []))
unfolding decode_string
decodes_escapes = refl

decodes_surrogates :
    decode_string b'"' true (codes "\\ud83d\\ude00\"") ≡ ([], some (0xF0 ∷ 0x9F ∷ 0x98 ∷ 0x80 ∷ []))
unfolding decode_string
decodes_surrogates = refl

finds_imports :
    import_names
      (codes "syntax = \"proto3\"; import 'a' \"b\"; /* import \"c\"; */ import weak \"d\";")
    ≡ codes "ab" ∷ codes "d" ∷ []
unfolding import_names text_eq
finds_imports = refl

canonicalizes : canonicalize_virtual_path windows (codes "a\\.\\b//c") ≡ codes "a/b/c"
unfolding canonicalize_virtual_path text_eq
canonicalizes = refl

masks_parent : is_masked_windows_parent_path windows (codes "\\\\../x") ≡ true
unfolding is_masked_windows_parent_path text_eq
masks_parent = refl

abbrev written : List (Qualifier × Bytes)
written = (Qualifier.absent, codes "a.proto") ∷ (Qualifier.weak_, codes "b/c.proto") ∷ []

import_names-statements_example : import_names (statements written) ≡ names_of written
import_names-statements_example = import_names-statements written refl

abbrev midway : ScanState
midway = record {
  expectation = Expectation.qualifier_or_string;
  import_name = [];
  imports = codes "a" ∷ [];
}

run_line_comment_example : run midway (codes "// no import\n\"b\";") ≡ run midway (codes "\"b\";")
run_line_comment_example = run_line_comment midway (codes " no import") (codes "\"b\";") refl

run_block_comment_example : run midway (codes "/* ** */\"b\";") ≡ run midway (codes "\"b\";")
unfolding starts_with
run_block_comment_example = run_block_comment midway (codes " ** ") (codes "\"b\";") refl

cmake_glob_pattern_exact_example :
    Matches (codes "a[*]b") (codes "a*b") ↔ (codes "a*b" ≡ codes "a*b")
unfolding cmake_glob_pattern
cmake_glob_pattern_exact_example =
    cmake_glob_pattern_exact (codes "a*b") (codes "a[*]b") (codes "a*b") refl
