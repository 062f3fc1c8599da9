-- ===== src/Model/Descriptor/Reserved.antt =====
-- `_validate_reserved_fields` of src/protocyte/model.py, with the checks of reserved names and
-- numbers that `_validate_enum_descriptor` does in the same way.
pub mod Free
use protocyte.Common.{
  is_empty, is_some, ℕ, ◌+◌, ℤ, pos, leb_int, ltb_int, Bool, true, false, not, ◌&&◌, ◌||◌, Option,
  none, some, List, [], ◌∷◌, ◌++◌, Result, ok, err, ◌>>=◌, ◌>>◌, raise_if, Bytes, text_eq, text_in,
  any, if◌then◌else◌,
}
use protocyte.Model.Descriptor.Ranges.{Range, sort_ranges_and_find_overlap, find_containing_range}
use protocyte.Model.Descriptor.Types.{
  DescriptorError, empty_reserved_name, duplicate_reserved_name, reserved_name_used, invalid_range,
  overlapping_ranges, reserved_number_used, max_field_number, MessageDescriptor,
}

-- field_numbers: dict[int, str] in the order of insertion
abbrev pub Numbered : Type 0
Numbered = List (ℤ × Bytes)

-- The loop over the reserved names; `reserved_names` are those of the rounds before.
unfoldable pub check_reserved_names :
    List Bytes → List Bytes → List Bytes → Result DescriptorError (Unit {0})
unfolding text_eq
check_reserved_names used reserved_names [] = ok tt
check_reserved_names used reserved_names (name ∷ names) =
    raise_if (is_empty name) empty_reserved_name
    >> raise_if (text_in name reserved_names) duplicate_reserved_name
    >> raise_if (text_in name used) reserved_name_used
    >> check_reserved_names used (name ∷ reserved_names) names

-- start < 1 or end > _MAX_FIELD_NUMBER + 1 or start >= end
abbrev pub is_invalid_range : Range → Bool
is_invalid_range (start, end) =
    ltb_int start (pos 1) || ltb_int (pos (max_field_number + 1)) end || leb_int end start

-- The loop over the reserved ranges.
unfoldable pub check_field_ranges : List Range → Result DescriptorError (Unit {0})
check_field_ranges [] = ok tt
check_field_ranges (r ∷ ranges) =
    raise_if (is_invalid_range r) invalid_range >> check_field_ranges ranges

-- The loop over the numbers that are used, at ranges in order.
unfoldable pub check_numbers : Bool → List Range → Numbered → Result DescriptorError (Unit {0})
unfolding find_containing_range
check_numbers end_inclusive ranges [] = ok tt
check_numbers end_inclusive ranges ((number, name) ∷ numbers) =
    raise_if (is_some (find_containing_range end_inclusive ranges number)) reserved_number_used
    >> check_numbers end_inclusive ranges numbers

-- From the sorting of the ranges on.
unfoldable pub check_reserved_ranges :
    Bool → List Range → Numbered → Result DescriptorError (Unit {0})
unfolding sort_ranges_and_find_overlap check_numbers
check_reserved_ranges end_inclusive ranges numbers =
    raise_if (is_some (sort_ranges_and_find_overlap end_inclusive ranges).1) overlapping_ranges
    >> check_numbers end_inclusive (sort_ranges_and_find_overlap end_inclusive ranges).0 numbers

unfoldable pub validate_reserved_fields :
    MessageDescriptor → List Bytes → Numbered → Result DescriptorError (Unit {0})
unfolding check_reserved_names check_field_ranges check_reserved_ranges
validate_reserved_fields message field_names field_numbers =
    check_reserved_names field_names [] message.reserved_name
    >> check_field_ranges message.reserved_range
    >> check_reserved_ranges false message.reserved_range field_numbers
