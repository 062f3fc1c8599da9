-- ===== src/Dependency/Tests.antt =====
-- Tests and worked instances for src/protocyte/dependency_file.py.
use protocyte.Common.{
  ℕ, leb, ◌&&◌, ◌||◌, ◌≡◌, refl, true, false, Bool, [], ok, err, codes, starts_with,
}
use protocyte.Dependency.{DependencyPath, colon, escape_depfile_path}
use protocyte.Dependency.Unescape.{unescape, unescape-escape_depfile_path}

abbrev is_ascii_letter : ℕ → Bool
is_ascii_letter c = (leb b'A' c && leb c b'Z') || (leb b'a' c && leb c b'z')

abbrev on_drive : DependencyPath
on_drive = record { posix = codes "C:/a b/$c;#.proto"; drive = codes "C:" }

written_for_make :
    escape_depfile_path is_ascii_letter on_drive false false ≡ ok (codes "C:/a\\ b/$$c\\;\\#.proto")
unfolding escape_depfile_path starts_with
written_for_make = refl

written_for_msbuild :
    escape_depfile_path is_ascii_letter on_drive true false
    ≡ ok (codes "C:/a\\ b/$$c%25253B\\#.proto")
unfolding escape_depfile_path starts_with
written_for_msbuild = refl

colon_refused :
    escape_depfile_path is_ascii_letter
      (record { posix = codes "/a:b.proto"; drive = [] })
      false
      false
    ≡ err colon
unfolding escape_depfile_path starts_with
colon_refused = refl

unescape-escape_depfile_path_example :
    unescape (codes "C:/a\\ b/$$c\\;\\#.proto") ≡ codes "C:/a b/$c;#.proto"
unescape-escape_depfile_path_example =
    unescape-escape_depfile_path is_ascii_letter on_drive false written_for_make
