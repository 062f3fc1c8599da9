-- ===== src/Model/Files.antt =====
-- The files of a request: `validate_virtual_file_name` of src/protocyte/descriptor_set.py, and
-- `_index_request_files` and `_validate_import_graph` of src/protocyte/model.py.
pub mod Rounds
pub mod Closed
pub mod Indexed
pub mod Tests
use protocyte.Common.{
  contains, is_empty, ℕ, zero, suc, ◌+◌, Bool, true, false, not, ◌&&◌, ◌||◌, Option, none, some,
  List, [], ◌∷◌, ◌++◌, map, Result, ok, err, ◌>>=◌, ◌>>◌, raise_if, Bytes, codes, text_eq, text_in,
  starts_with, split, any, length, ◌==◌, if◌then◌else◌,
}
use protocyte.Model.Graph.{Graph, successors, push_all, unseen_edges}

-- The places at which the functions raise; `unknown_root` is the KeyError of files[name].
pub data FileError : Type 0 where
  empty_file_name option_file_name null_in_file_name backslash_in_file_name rooted_file_name :
      FileError
  unsafe_file_segment duplicate_file_name missing_import unknown_root : FileError

-- PureWindowsPath(name).root of a name without "\" that does not begin with "/": there is a root
-- behind a drive.
abbrev pub has_windows_root : Bytes → Bool
has_windows_root (drive ∷ colon ∷ slash ∷ name) = colon == b':' && slash == b'/'
has_windows_root _ = false

-- part in {"", ".", ".."}
abbrev pub is_unsafe_part : Bytes → Bool
is_unsafe_part part = is_empty part || text_eq part (codes ".") || text_eq part (codes "..")

unfoldable pub validate_virtual_file_name : Bytes → Result FileError (Unit {0})
unfolding starts_with split text_eq
validate_virtual_file_name name =
    raise_if (is_empty name) empty_file_name
    >> raise_if (starts_with (codes "-") name) option_file_name
    >> raise_if (contains 0 name) null_in_file_name
    >> raise_if (contains b'\\' name) backslash_in_file_name
    >> raise_if (starts_with (codes "/") name || has_windows_root name) rooted_file_name
    >> raise_if (any is_unsafe_part (split b'/' name)) unsafe_file_segment

-- name in files
unfoldable pub has_file : Bytes → Graph → Bool
unfolding text_eq
has_file name [] = false
has_file name ((other, dependencies) ∷ files) = text_eq name other || has_file name files

-- The loop of `_index_request_files` over files with their dependencies, which `index_files` has too.
unfoldable pub index_loop : List (Bytes × List Bytes) → Graph → Result FileError Graph
unfolding validate_virtual_file_name has_file
index_loop [] files = ok files
index_loop ((name, dependencies) ∷ proto_files) files =
    validate_virtual_file_name name
    >> raise_if (has_file name files) duplicate_file_name
    >> index_loop proto_files (files ++ (name, dependencies) ∷ [])

unfoldable pub index_request_files : List (Bytes × List Bytes) → Result FileError Graph
unfolding index_loop
index_request_files proto_files = index_loop proto_files []

-- descriptor_pb2.DESCRIPTOR.name
abbrev pub descriptor_name : Bytes
descriptor_name = codes "google/protobuf/descriptor.proto"

-- dependency == descriptor_pb2.DESCRIPTOR.name and dependency not in files
abbrev pub is_left_out : Graph → Bytes → Bool
is_left_out files dependency = text_eq dependency descriptor_name && not (has_file dependency files)

-- The loop over a file's dependencies: those that go on the stack.
unfoldable pub check_dependencies : Graph → List Bytes → Result FileError (List Bytes)
unfolding validate_virtual_file_name has_file text_eq
check_dependencies files [] = ok []
check_dependencies files (dependency ∷ dependencies) =
    validate_virtual_file_name dependency
    >> raise_if (not (has_file dependency files) && not (is_left_out files dependency))
        missing_import
    >> check_dependencies files dependencies
    >>= λ rest. ok (if is_left_out files dependency then rest else dependency ∷ rest)

-- What the rest of the loop makes of a round that did not raise.
abbrev pub next_round :
    (List Bytes → Option (Result FileError (List Bytes)))
    → Result FileError (List Bytes)
    → Option (Result FileError (List Bytes))
next_round continue (err raised) = some (err raised)
next_round continue (ok pushed) = continue pushed

-- A round at a file that was not seen: files[name] and its dependencies.
unfoldable pub import_round : Graph → Bytes → Result FileError (List Bytes)
unfolding check_dependencies has_file successors
import_round files name =
    raise_if (not (has_file name files)) unknown_root
    >> check_dependencies files (successors files name)

-- The loop of `_validate_import_graph`; `none` says that the fuel ran out.
unfoldable pub import_loop :
    ℕ → Graph → List Bytes → List Bytes → Option (Result FileError (List Bytes))
unfolding import_round push_all
import_loop zero files stack seen = none
import_loop (suc fuel) files [] seen = some (ok seen)
import_loop (suc fuel) files (name ∷ stack) seen = elim (text_in name seen) [
  | true ↦ import_loop fuel files stack seen
  | false ↦
      next_round (λ pushed. import_loop fuel files (push_all pushed stack) (name ∷ seen))
        (import_round files name)
]

-- A name is put on the stack once for each root and for each dependency.
unfoldable pub validate_import_graph : Graph → List Bytes → Option (Result FileError (List Bytes))
unfolding import_loop unseen_edges push_all
validate_import_graph files roots =
    import_loop (unseen_edges files [] + length roots + 1) files (push_all roots []) []
