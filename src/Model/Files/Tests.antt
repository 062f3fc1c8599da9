-- ===== src/Model/Files/Tests.antt =====
-- Tests and worked instances for the files of a request.
use protocyte.Common.{
  ◌≡◌, refl, some, List, [], ◌∷◌, Result, ok, err, Bytes, codes, text_eq, starts_with,
}
use protocyte.Model.Graph.{Graph}
use protocyte.Model.Files.{
  FileError, duplicate_file_name, missing_import, rooted_file_name, unsafe_file_segment,
  validate_virtual_file_name, index_request_files, validate_import_graph, descriptor_name,
}
use protocyte.Model.Files.Closed.{IsImportClosure, validate_import_graph-IsImportClosure}

-- Two files that import each other, one of which imports descriptor.proto, and a file alone.
abbrev cycle : Graph
cycle =
    (codes "a.proto", codes "b.proto" ∷ descriptor_name ∷ [])
    ∷ (codes "b.proto", codes "a.proto" ∷ [])
    ∷ (codes "c.proto", codes "d.proto" ∷ [])
    ∷ []

cycle_seen :
    validate_import_graph cycle (codes "a.proto" ∷ [])
    ≡ some (ok (codes "b.proto" ∷ codes "a.proto" ∷ []))
unfolding validate_import_graph text_eq starts_with
cycle_seen = refl

missing_refused : validate_import_graph cycle (codes "c.proto" ∷ []) ≡ some (err missing_import)
unfolding validate_import_graph text_eq starts_with
missing_refused = refl

drive_refused : validate_virtual_file_name (codes "C:/a.proto") ≡ err rooted_file_name
unfolding validate_virtual_file_name text_eq starts_with
drive_refused = refl

upward_refused : validate_virtual_file_name (codes "a/../b.proto") ≡ err unsafe_file_segment
unfolding validate_virtual_file_name text_eq starts_with
upward_refused = refl

repeated_refused :
    index_request_files ((codes "a.proto", []) ∷ (codes "a.proto", []) ∷ [])
    ≡ err duplicate_file_name
unfolding index_request_files text_eq starts_with
repeated_refused = refl

validate_import_graph-IsImportClosure_example :
    (r : Result FileError (List Bytes)) × (validate_import_graph cycle (codes "a.proto" ∷ [])
      ≡ some r)
    × ((seen : List Bytes) → r ≡ ok seen → IsImportClosure cycle (codes "a.proto" ∷ []) seen)
validate_import_graph-IsImportClosure_example =
    validate_import_graph-IsImportClosure cycle (codes "a.proto" ∷ [])
