-- ===== src/Paths/Tests.antt =====
-- Tests and worked instances for src/protocyte/paths.py.
use protocyte.Common.{
  ◌≤◌, ◌≡◌, refl, some, none, ◌∷◌, ◌++◌, Bytes, codes, replicate, length, split, text_eq, ok, err,
  arith,
}
use protocyte.Paths.Segment.{normalized_segment, normalize_generated_path}
use protocyte.Paths.Base.{
  PathError, is_budgeted, generated_file_base, effective_budget, before_last,
  min_hashed_generated_file_path_bytes, stable_budgeted_directory_bytes,
}
use protocyte.Paths.Safe.{HexDigest, ArePortable, normalize_generated_path-ArePortable}
use protocyte.Paths.Decode.{decode_path, decode_path-normalize_generated_path}
use protocyte.Paths.Budget.{generated_file_base_fits, generated_file_base_agrees}

abbrev digest : Bytes → Bytes
digest text = replicate 64 b'0'

hashlib : HexDigest digest
hashlib = record { size = λ text. refl; digits = λ text. refl }

escapes_device : normalized_segment (codes "con.x") ≡ codes "~63on.x"
unfolding normalized_segment text_eq
escapes_device = refl

escapes_dots : normalize_generated_path digest (codes "../a b") ≡ codes ".~2E/a~20b"
unfolding normalize_generated_path text_eq
escapes_dots = refl

normalize_generated_path-ArePortable_example :
    ArePortable (split b'/' (normalize_generated_path digest (codes "api/a b.proto")))
normalize_generated_path-ArePortable_example =
    normalize_generated_path-ArePortable digest hashlib (codes "api/a b.proto") refl

decode_path-normalize_generated_path_example :
    decode_path (normalize_generated_path digest (codes "api/a b")) ≡ codes "api/a b"
unfolding split normalized_segment text_eq
decode_path-normalize_generated_path_example =
    decode_path-normalize_generated_path digest hashlib (codes "api/a b") refl
      (omega arith, omega arith)

abbrev long_name : Bytes
long_name = codes "aaaaaaaaaaaaaaaaaaaaaaaaaaaaaaaaaaaaaaaaaaaaaaaaaaaaaaaaaaaaaaaaaaaaaaaa/x.proto"

abbrev hashed : Bytes
hashed = b'~' ∷ replicate 64 b'0' ++ codes ".protocyte"

folds_long_name : generated_file_base digest (some 79) none long_name ≡ ok hashed
unfolding generated_file_base text_eq
folds_long_name = refl

refuses_small_budget :
    generated_file_base digest (some 40) none long_name ≡ err PathError.path_budget_too_small
unfolding generated_file_base text_eq
refuses_small_budget = refl

generated_file_base_fits_example :
    (length (hashed ++ codes ".hpp")
      ≤ effective_budget min_hashed_generated_file_path_bytes (some 79))
    × (length (before_last b'/' hashed) ≤ effective_budget stable_budgeted_directory_bytes none)
generated_file_base_fits_example =
    generated_file_base_fits digest hashlib (some 79) none long_name hashed
      (unfold is_budgeted in refl) folds_long_name

generated_file_base_agrees_example :
    generated_file_base digest (some 200) none long_name
    ≡ generated_file_base digest none (some 90) long_name
generated_file_base_agrees_example =
    generated_file_base_agrees digest hashlib (some 200) none none (some 90) long_name
      (unfold is_budgeted in refl) (unfold is_budgeted in refl) (omega arith) tt tt (omega arith)
