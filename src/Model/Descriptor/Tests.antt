-- ===== src/Model/Descriptor/Tests.antt =====
-- Tests and worked instances for the checks of descriptors.
use protocyte.Common.{
  is_some, ℕ, ℤ, pos, negsuc, ◌≡◌, refl, Bool, true, false, Option, none, some, List, [], ◌∷◌, ok,
  err, Bytes, codes, text_eq, any, all,
}
use protocyte.Model.Descriptor.Ranges.{Range, sort_ranges_and_find_overlap, find_containing_range}
use protocyte.Model.Descriptor.Ranges.Find.{contains_value, find_containing_range-any}
use protocyte.Model.Descriptor.Types.{
  FieldDescriptor, MessageDescriptor, EnumDescriptor, EnumValueDescriptor, reserved_number_used,
  alias_not_allowed, label_optional, synthetic_before_regular,
}
use protocyte.Model.Descriptor.Reserved.Free.{are_free_numbers}
use protocyte.Model.Descriptor.Message.{validate_message_descriptor}
use protocyte.Model.Descriptor.Message.Accepted.{
  numbers_of, is_usable_number, are_distinct, validate_message_descriptor-numbers,
}
use protocyte.Model.Descriptor.Enum.{validate_enum_descriptor}

-- Out of order, and neighbours that touch at the end that does not count.
abbrev two_ranges : List Range
two_ranges = (pos 20, pos 30) ∷ (pos 10, pos 20) ∷ []

find_containing_range-any_example :
    is_some (find_containing_range false (sort_ranges_and_find_overlap false two_ranges).0 (pos 20))
    ≡ any (contains_value false (pos 20)) two_ranges
unfolding sort_ranges_and_find_overlap
find_containing_range-any_example = find_containing_range-any false two_ranges (pos 20) refl

found_second :
    find_containing_range false (sort_ranges_and_find_overlap false two_ranges).0 (pos 20)
    ≡ some (pos 20, pos 30)
unfolding find_containing_range sort_ranges_and_find_overlap
found_second = refl

abbrev int_field : Bytes → ℕ → Option ℤ → Bool → FieldDescriptor
int_field name number oneof_index proto3_optional = record {
  name = name;
  number = pos number;
  label = some label_optional;
  type_number = some 5;
  type_name = [];
  oneof_index = oneof_index;
  proto3_optional = proto3_optional;
  has_default_value = false;
}

abbrev message_of : List Bytes → List FieldDescriptor → MessageDescriptor
message_of oneofs fields = record {
  oneof_decl = oneofs;
  fields = fields;
  reserved_name = codes "old" ∷ [];
  reserved_range = two_ranges;
  has_extension = false;
  has_extension_range = false;
  has_nested_type = false;
  has_enum_type = false;
}

abbrev pair : MessageDescriptor
pair =
    message_of (codes "_b" ∷ [])
      (int_field (codes "a") 1 none false ∷ int_field (codes "b") 30 (some (pos 0)) true ∷ [])

pair_accepted : validate_message_descriptor pair (codes "proto3") ≡ ok tt
unfolding validate_message_descriptor text_eq
pair_accepted = refl

reserved_refused :
    validate_message_descriptor
      (message_of [] (int_field (codes "a") 29 none false ∷ []))
      (codes "proto3")
    ≡ err reserved_number_used
unfolding validate_message_descriptor text_eq
reserved_refused = refl

order_refused :
    validate_message_descriptor
      (message_of
        (codes "_a" ∷ codes "choice" ∷ [])
        (int_field (codes "a") 1 (some (pos 0)) true ∷ []))
      (codes "proto3")
    ≡ err synthetic_before_regular
unfolding validate_message_descriptor text_eq
order_refused = refl

validate_message_descriptor-numbers_example :
    (are_distinct (numbers_of pair.fields) ≡ true)
    × (all (λ f. is_usable_number f.number) pair.fields ≡ true)
    × (are_free_numbers false pair.reserved_range (numbers_of pair.fields) ≡ true)
validate_message_descriptor-numbers_example =
    validate_message_descriptor-numbers pair (codes "proto3") pair_accepted

abbrev value_of : Bytes → ℤ → EnumValueDescriptor
value_of name number = record { name = name; number = some number }

abbrev state_enum : Bool → EnumDescriptor
state_enum allow_alias = record {
  name = codes "State";
  values =
      value_of (codes "OFF") (pos 0)
      ∷ value_of (codes "LOW") (negsuc 4)
      ∷ value_of (codes "NONE") (pos 0)
      ∷ [];
  allow_alias = allow_alias;
  reserved_name = codes "OLD" ∷ [];
  reserved_range = (some (pos 1), some (pos 1)) ∷ (some (negsuc 9), some (negsuc 5)) ∷ [];
}

alias_refused : validate_enum_descriptor (state_enum false) (codes "proto3") ≡ err alias_not_allowed
unfolding validate_enum_descriptor text_eq
alias_refused = refl
