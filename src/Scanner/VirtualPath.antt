-- ===== src/Scanner/VirtualPath.antt =====
-- The path functions of src/protocyte/import_scanner.py. What `os.name` and `sys.platform` say is
-- a record; `os.path.normpath` is a parameter of `map_virtual_path`.
pub mod Canonical
pub mod Glob
use protocyte.Common.{
  ℕ, zero, suc, Bool, true, false, not, ◌&&◌, ◌||◌, Option, none, some, List, [], ◌∷◌, ◌++◌, map,
  any, all, Bytes, codes, text_eq, text_in, starts_with, ends_with, split, join, before, leb, ltb,
  ◌==◌, if◌then◌else◌, drop,
}

pub record Platform : Type 0 where
  -- os.name == "nt"
  pub nt : Bool
  -- sys.platform == "cygwin"
  pub cygwin : Bool

-- path.replace("\\", "/")
unfoldable pub forward_slashes : Bytes → Bytes
forward_slashes = map (λ c. if c == b'\\' then b'/' else c)

unfoldable pub windows_slashes : Bool → Bytes → Bytes
unfolding forward_slashes starts_with
windows_slashes nt path =
    if not nt
    then path
    else if starts_with (codes "\\\\") path
    then codes "\\\\" ++ forward_slashes (drop 2 path)
    else forward_slashes path

-- part and part != "."
unfoldable pub is_name : Bytes → Bool
unfolding text_eq
is_name part = not (text_eq part []) && not (text_eq part (codes "."))

unfoldable pub name_parts : List Bytes → List Bytes
unfolding is_name
name_parts [] = []
name_parts (part ∷ parts) = if is_name part then part ∷ name_parts parts else name_parts parts

-- [b""] if test else []
unfoldable pub empty_if : Bool → List Bytes
empty_if true = [] ∷ []
empty_if false = []

unfoldable pub canonicalize_virtual_path : Platform → Bytes → Bytes
unfolding windows_slashes name_parts empty_if split join starts_with ends_with
canonicalize_virtual_path platform path =
    let slashed = windows_slashes platform.nt path in
    join b'/' (
      empty_if (starts_with (codes "/") slashed)
      ++ (name_parts (split b'/' slashed) ++ empty_if (ends_with b'/' slashed)))

unfoldable pub is_letter : ℕ → Bool
is_letter c = (leb b'A' c && leb c b'Z') || (leb b'a' c && leb c b'z')

-- A drive, a colon, a slash, and no other colon.
unfoldable pub is_windows_absolute_path : Platform → Bytes → Bool
unfolding is_letter
is_windows_absolute_path platform (letter ∷ colon ∷ slash ∷ path) =
    (platform.nt || platform.cygwin)
    && colon == b':'
    && is_letter letter
    && (slash == b'/' || slash == b'\\')
    && not (any (λ c. c == b':') path)
is_windows_absolute_path platform path = false

unfoldable pub is_canonical_virtual_path : Platform → Bytes → Bool
unfolding canonicalize_virtual_path is_windows_absolute_path text_eq
is_canonical_virtual_path platform path =
    not (text_eq path [])
    && not (ends_with b'/' path)
    && text_eq path (canonicalize_virtual_path platform path)
    && not (text_in (codes "..") (split b'/' path))
    && not (starts_with (codes "/") path)
    && not (is_windows_absolute_path platform path)

unfoldable pub is_masked_windows_parent_path : Platform → Bytes → Bool
unfolding starts_with before text_eq
is_masked_windows_parent_path platform path =
    if not platform.nt || not (starts_with (codes "\\\\") path)
    then false
    else text_in (before b'/' (drop 2 path)) (codes "." ∷ codes ".." ∷ [])

unfoldable pub map_virtual_path : (Bytes → Bytes) → Platform → Bytes → Bytes → Bytes
unfolding forward_slashes ends_with
map_virtual_path normpath platform import_root virtual_path =
    let has_separator =
      ends_with b'/' import_root || (platform.nt && ends_with b'\\' import_root) in
    let candidate = import_root ++ ((if has_separator then [] else codes "/") ++ virtual_path) in
    if platform.nt then forward_slashes (normpath candidate) else candidate

-- The characters that no pattern can hold.
unfoldable pub is_unsafe : ℕ → Bool
is_unsafe c = c == b'"' || c == b'\\' || ltb c 32 || c == 127

-- replacements.get(value, value)
unfoldable pub replacement : ℕ → Bytes
replacement c =
    if c == b'[' || c == b']' || c == b'*' || c == b'?' || c == b'$'
    then b'[' ∷ c ∷ b']' ∷ []
    else c ∷ []

unfoldable pub pattern_of : Bytes → Bytes
unfolding replacement
pattern_of [] = []
pattern_of (c ∷ path) = replacement c ++ pattern_of path

unfoldable pub cmake_glob_pattern : Bytes → Option Bytes
unfolding is_unsafe pattern_of
cmake_glob_pattern path = if any is_unsafe path then none else some (pattern_of path)
