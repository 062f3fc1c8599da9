-- ===== src/Model/Descriptor/Enum.antt =====
-- `_validate_enum_descriptor` of src/protocyte/model.py.
pub mod Accepted
use protocyte.Common.{
  is_empty, ℤ, pos, leb_int, ltb_int, eq_int, Bool, true, false, not, ◌&&◌, ◌||◌, Option, none,
  some, List, [], ◌∷◌, ◌++◌, Result, ok, err, ◌>>=◌, ◌>>◌, raise_if, Bytes, text_eq, text_in,
  if◌then◌else◌,
}
use protocyte.Model.Descriptor.Ranges.{Range}
use protocyte.Model.Descriptor.Types.{
  EnumDescriptor, EnumValueDescriptor, DescriptorError, empty_enum_name, no_enum_values,
  empty_value_name, missing_number, duplicate_value_name, alias_not_allowed, first_not_zero,
  incomplete_range, invalid_range, proto3,
}
use protocyte.Model.Descriptor.Reserved.{Numbered, check_reserved_names, check_reserved_ranges}
use protocyte.Model.Descriptor.Message.{has_number}

-- One value with its number, behind the check that there is one.
unfoldable pub value_step :
    Bool → Bytes → ℤ → List Bytes × Numbered → Result DescriptorError (List Bytes × Numbered)
unfolding text_eq
value_step allow_alias name number (names, numbers) =
    let used = has_number number numbers in
    raise_if (text_in name names) duplicate_value_name
    >> raise_if (used && not allow_alias) alias_not_allowed
    >> ok (name ∷ names, if used then numbers else numbers ++ (number, name) ∷ [])

-- The check that the value has a number, and what follows.
unfoldable pub numbered_value :
    Bool → Bytes → Option ℤ → List Bytes × Numbered → Result DescriptorError (List Bytes × Numbered)
unfolding value_step
numbered_value allow_alias name none state = err missing_number
numbered_value allow_alias name (some number) state = value_step allow_alias name number state

-- One round of the loop over the values.
unfoldable pub enum_value :
    Bool
    → EnumValueDescriptor
    → List Bytes × Numbered
    → Result DescriptorError (List Bytes × Numbered)
unfolding numbered_value
enum_value allow_alias v state =
    raise_if (is_empty v.name) empty_value_name >> numbered_value allow_alias v.name v.number state

unfoldable pub value_loop :
    Bool
    → List EnumValueDescriptor
    → List Bytes × Numbered
    → Result DescriptorError (List Bytes × Numbered)
unfolding enum_value
value_loop allow_alias [] state = ok state
value_loop allow_alias (v ∷ values) state =
    enum_value allow_alias v state >>= value_loop allow_alias values

-- enum.value[0].number != 0
abbrev pub starts_elsewhere : List EnumValueDescriptor → Bool
starts_elsewhere [] = false
starts_elsewhere (v ∷ values) = elim v.number [
  | none ↦ false
  | some number ↦ not (eq_int number (pos 0))
]

-- The loop over the reserved ranges, which both ends must be given of.
unfoldable pub enum_ranges : List (Option ℤ × Option ℤ) → Result DescriptorError (List Range)
enum_ranges [] = ok []
enum_ranges ((some start, some end) ∷ ranges) =
    raise_if (ltb_int end start) invalid_range >> enum_ranges ranges >>= λ rest.
    ok ((start, end) ∷ rest)
enum_ranges (_ ∷ ranges) = err incomplete_range

-- enum.value is not empty
abbrev pub has_no_values : List EnumValueDescriptor → Bool
has_no_values [] = true
has_no_values (v ∷ values) = false

unfoldable pub validate_enum_descriptor : EnumDescriptor → Bytes → Result DescriptorError (Unit {0})
unfolding value_loop check_reserved_names enum_ranges check_reserved_ranges text_eq
validate_enum_descriptor enum syntax =
    raise_if (is_empty enum.name) empty_enum_name
    >> raise_if (has_no_values enum.values) no_enum_values
    >> value_loop enum.allow_alias enum.values ([], [])
    >>= λ (value_names, value_numbers).
        raise_if (text_eq syntax proto3 && starts_elsewhere enum.values) first_not_zero
        >> check_reserved_names value_names [] enum.reserved_name
        >> enum_ranges enum.reserved_range
        >>= λ ranges. check_reserved_ranges true ranges value_numbers
