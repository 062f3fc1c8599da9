-- ===== src/Dependency.antt =====
-- `_escape_depfile_path` of src/protocyte/dependency_file.py. Of a path, the text of as_posix() and
-- the drive are read, as lists of code points; both come from pathlib. str.isalpha of one character,
-- a table of Unicode, is a parameter.
pub mod Unescape
pub mod Tests
use protocyte.Common.{
  ℕ, ◌+◌, ◌-◌, Bool, true, false, not, ◌&&◌, ◌||◌, List, [], ◌∷◌, ◌++◌, Result, ok, err, ◌>>◌,
  raise_if, Bytes, codes, ◌==◌, if◌then◌else◌, any, contains, starts_with, drop,
}

pub record DependencyPath : Type 0 where
  pub posix : Bytes
  pub drive : Bytes

-- The places at which the function raises ProtocyteError.
pub data DepfileError : Type 0 where
  two_formats white_space backslash colon : DepfileError

-- text.replace(chr(old), new)
unfoldable pub replace : ℕ → Bytes → Bytes → Bytes
replace old new [] = []
replace old new (c ∷ text) =
    if c == old then new ++ replace old new text else c ∷ replace old new text

-- The replacements.
unfoldable pub escaped_value : Bool → Bool → Bytes → Bytes
unfolding replace
escaped_value msbuild ninja value =
    let marked =
      replace b' ' (codes "\\ ") (replace b'#' (codes "\\#") (replace b'$' (codes "$$") value)) in
    if ninja then marked else replace b';' (if msbuild then codes "%25253B" else codes "\\;") marked

module _ (isalpha : ℕ → Bool) where
  -- has_absolute_windows_drive
  unfoldable pub has_absolute_windows_drive : Bytes → Bytes → Bool
  unfolding starts_with
  has_absolute_windows_drive (letter ∷ mark ∷ []) value =
      isalpha letter && mark == b':' && starts_with (letter ∷ mark ∷ b'/' ∷ []) value
  has_absolute_windows_drive _ value = false

  unfoldable pub escape_depfile_path : DependencyPath → Bool → Bool → Result DepfileError Bytes
  unfolding has_absolute_windows_drive escaped_value
  escape_depfile_path path msbuild ninja =
      let value = path.posix in
      let start = if has_absolute_windows_drive path.drive value then 2 else 0 in
      raise_if (msbuild && ninja) two_formats
      >> raise_if (any (λ c. c == 13 || c == 10 || c == 9) value) white_space
      >> raise_if (contains b'\\' value) backslash
      >> raise_if (contains b':' (drop start value)) colon
      >> ok (escaped_value msbuild ninja value)
