-- ===== src/Model/Descriptor/Reserved/Free.antt =====
-- What is not reserved in an accepted descriptor.
use protocyte.Common.{
  is_empty, is_some, ◌≡◌, refl, sym, ◌∙◌, Bool, true, false, not, Option, none, some, List, [], ◌∷◌,
  ok, ◌>>◌, raise_if, >>-eq-ok, raise_if-ok, raise_if-passed, Bytes, text_in, any, all,
}
use protocyte.Model.Descriptor.Ranges.{Range, sort_ranges_and_find_overlap, find_containing_range}
use protocyte.Model.Descriptor.Ranges.Find.{contains_value, find_containing_range-any}
use protocyte.Model.Descriptor.Types.{
  MessageDescriptor, reserved_name_used, reserved_number_used, empty_reserved_name,
  duplicate_reserved_name, overlapping_ranges,
}
use protocyte.Model.Descriptor.Reserved.{
  Numbered, check_reserved_names, check_field_ranges, check_numbers, check_reserved_ranges,
  validate_reserved_fields,
}

-- No range of the list holds a number that is used.
abbrev pub are_free_numbers : Bool → List Range → Numbered → Bool
are_free_numbers end_inclusive ranges =
    all (λ entry. not (any (contains_value end_inclusive entry.0) ranges))

-- No reserved name is used.
abbrev pub are_free_names : List Bytes → List Bytes → Bool
are_free_names used = all (λ name. not (text_in name used))

pub check_reserved_names-free :
    (used reserved_names names : List Bytes)
    → check_reserved_names used reserved_names names ≡ ok tt
    → are_free_names used names ≡ true
unfolding check_reserved_names
check_reserved_names-free used reserved_names [] passed = refl
check_reserved_names-free used reserved_names (name ∷ names) passed =
    let (_, free, rest) =
      raise_if-passed
        (raise_if (is_empty name) empty_reserved_name
          >> raise_if (text_in name reserved_names) duplicate_reserved_name)
        (text_in name used) reserved_name_used
        (check_reserved_names used (name ∷ reserved_names) names) passed in
    rw (free, check_reserved_names-free used (name ∷ reserved_names) names rest) refl

check_numbers-free :
    (end_inclusive : Bool) (ranges : List Range) (numbers : Numbered)
    → (sort_ranges_and_find_overlap end_inclusive ranges).1 ≡ none
    → check_numbers end_inclusive (sort_ranges_and_find_overlap end_inclusive ranges).0 numbers
      ≡ ok tt
    → are_free_numbers end_inclusive ranges numbers ≡ true
unfolding check_numbers
check_numbers-free end_inclusive ranges [] apart passed = refl
check_numbers-free end_inclusive ranges ((number, name) ∷ numbers) apart passed =
    let ordered = (sort_ranges_and_find_overlap end_inclusive ranges).0 in
    let (first, rest) =
      >>-eq-ok
        (raise_if (is_some (find_containing_range end_inclusive ordered number))
          reserved_number_used)
        (check_numbers end_inclusive ordered numbers) passed in
    let free =
      raise_if-ok (is_some (find_containing_range end_inclusive ordered number))
        reserved_number_used first in
    rw
      (
        sym (find_containing_range-any end_inclusive ranges number apart) ∙ free,
        check_numbers-free end_inclusive ranges numbers apart rest,
      )
      refl

none_left : {A : Type 0} (o : Option A) → is_some o ≡ false → o ≡ none
none_left none h = refl
none_left (some a) h = cc

pub check_reserved_ranges-free :
    (end_inclusive : Bool) (ranges : List Range) (numbers : Numbered)
    → check_reserved_ranges end_inclusive ranges numbers ≡ ok tt
    → are_free_numbers end_inclusive ranges numbers ≡ true
unfolding check_reserved_ranges
check_reserved_ranges-free end_inclusive ranges numbers passed =
    let overlap = (sort_ranges_and_find_overlap end_inclusive ranges).1 in
    let ordered = (sort_ranges_and_find_overlap end_inclusive ranges).0 in
    let (first, rest) =
      >>-eq-ok (raise_if (is_some overlap) overlapping_ranges)
        (check_numbers end_inclusive ordered numbers) passed in
    check_numbers-free end_inclusive ranges numbers
      (none_left overlap (raise_if-ok (is_some overlap) overlapping_ranges first)) rest

-- If `_validate_reserved_fields` returns, no reserved name is a field's name, and no reserved range
-- holds a field's number.
pub validate_reserved_fields-free :
    (message : MessageDescriptor) (field_names : List Bytes) (field_numbers : Numbered)
    → validate_reserved_fields message field_names field_numbers ≡ ok tt
    → (are_free_names field_names message.reserved_name ≡ true)
      × (are_free_numbers false message.reserved_range field_numbers ≡ true)
unfolding validate_reserved_fields
validate_reserved_fields-free message field_names field_numbers passed =
    let names = check_reserved_names field_names [] message.reserved_name in
    let valid = check_field_ranges message.reserved_range in
    let (first, ranges) =
      >>-eq-ok (names >> valid) (check_reserved_ranges false message.reserved_range field_numbers)
        passed in
    (
      check_reserved_names-free field_names [] message.reserved_name (>>-eq-ok names valid first).0,
      check_reserved_ranges-free false message.reserved_range field_numbers ranges,
    )
