-- ===== src/Model/Files/Indexed.antt =====
-- The files that `_index_request_files` accepts.
use protocyte.Common.{
  Bool, true, not, ◌&&◌, ◌||◌, [], ◌∷◌, Bytes, codes, starts_with, split, any, all, contains,
}
use protocyte.Model.Graph.{Graph}
use protocyte.Model.Files.{has_windows_root, is_unsafe_part, has_file}

-- A name that stays below the directory that it is taken from, on every platform: it has no root
-- and no backslash, and no part between its slashes is empty, "." or "..".
abbrev pub is_relative_name : Bytes → Bool
is_relative_name name =
    not (starts_with (codes "/") name || has_windows_root name)
    && not (contains b'\\' name)
    && not (any is_unsafe_part (split b'/' name))

-- No file has the name of another.
abbrev pub are_named_apart : Graph → Bool
are_named_apart [] = true
are_named_apart ((name, dependencies) ∷ files) = not (has_file name files) && are_named_apart files

-- The names of the files are relative.
abbrev pub are_relative : Graph → Bool
are_relative = all (λ file. is_relative_name file.0)
