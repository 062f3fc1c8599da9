-- ===== src/Scanner/VirtualPath/Canonical.antt =====
-- What `_is_canonical_virtual_path` accepts is a plain relative path.
use protocyte.Common.{Bool, not, ◌&&◌, Bytes, codes, text_eq}
use protocyte.Scanner.VirtualPath.{is_name}

-- A part that names a file or directory below the one before it.
abbrev pub is_component : Bytes → Bool
is_component part = is_name part && not (text_eq (codes "..") part)
