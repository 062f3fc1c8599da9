-- ===== src/Parameters/Prefix/Directory.antt =====
-- Accepted directory prefixes, which are written into file names and include directives.
use protocyte.Common.{◌≡◌, false, List, [], ◌∷◌, ends_with}
use protocyte.Paths.Segment.{is_reserved_device}
use protocyte.Parameters.Text.{Text}
use protocyte.Parameters.Prefix.{is_dots, is_spaced, is_invalid_character}

-- A segment that is a portable name of a directory: not empty, not "." or "..", no white space at
-- its ends, no dot at its end, not the name of a Windows device and without the characters
-- < > : " \ | ? * ; of shells and of Windows.
pub record IsPortableName (segment : Text) : Type 0 where
  pub no_dots : is_dots segment ≡ false
  pub no_spaces : is_spaced segment ≡ false
  pub no_final_dot : ends_with b'.' segment ≡ false
  pub no_device : is_reserved_device segment ≡ false
  pub no_special : is_invalid_character segment ≡ false

-- Every segment of a list is a portable name.
pub data ArePortableNames : List Text → Type 0 where
  no_names : ArePortableNames []
  one_name :
      (segment : Text) (segments : List Text)
      → IsPortableName segment
      → ArePortableNames segments
      → ArePortableNames (segment ∷ segments)
