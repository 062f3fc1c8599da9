-- ===== src/Model/Descriptor/Message.antt =====
-- `_validate_field_descriptor`, `_validate_message_descriptor` and `_validate_map_entry_descriptor`
-- of src/protocyte/model.py.
pub mod Accepted
use protocyte.Common.{
  contains, is_empty, is_some, ℕ, zero, suc, ◌+◌, ◌-◌, ℤ, pos, negsuc, leb_int, ltb_int, eq_int,
  Bool, true, false, not, ◌&&◌, ◌||◌, Option, none, some, List, [], ◌∷◌, ◌++◌, Result, ok, err,
  ◌>>=◌, ◌>>◌, raise_if, Bytes, codes, text_eq, text_in, ltb, leb, ◌==◌, any, all, length,
  if◌then◌else◌,
}
use protocyte.Model.Descriptor.Types.{
  FieldDescriptor, MessageDescriptor, DescriptorError, empty_oneof_name, duplicate_oneof_name,
  empty_field_name, null_in_field_name, duplicate_field_name, duplicate_field_number,
  number_out_of_range, implementation_number, invalid_label, invalid_type, required_in_proto3,
  missing_type_name, scalar_type_name, oneof_out_of_range, oneof_not_optional, optional_not_proto3,
  optional_without_oneof, synthetic_not_single, synthetic_before_regular, map_entry_fields,
  map_entry_members, map_entry_key, map_key_type, map_entry_value, map_entry_oneof,
  map_entry_default, label_optional, label_required, label_repeated, type_group, type_message,
  type_enum, type_sint64, max_field_number, proto3,
}
use protocyte.Model.Descriptor.Reserved.{Numbered, validate_reserved_fields}

-- An enum field of a descriptor reads as its first value when it is missing.
abbrev pub or_one : Option ℕ → ℕ
or_one none = 1
or_one (some n) = n

-- field.HasField("label") and field.label in _VALID_FIELD_LABELS
abbrev pub is_valid_label : Option ℕ → Bool
is_valid_label none = false
is_valid_label (some label) =
    label == label_optional || label == label_required || label == label_repeated

-- field.HasField("type") and field.type in _VALID_FIELD_TYPES
abbrev pub is_valid_type : Option ℕ → Bool
is_valid_type none = false
is_valid_type (some number) = leb 1 number && leb number type_sint64

-- field.type in {TYPE_ENUM, TYPE_MESSAGE}
abbrev pub is_typed_reference : FieldDescriptor → Bool
is_typed_reference f = or_one f.type_number == type_enum || or_one f.type_number == type_message

-- field.number < 1 or field.number > _MAX_FIELD_NUMBER
abbrev pub is_out_of_range : ℤ → Bool
is_out_of_range number = ltb_int number (pos 1) || ltb_int (pos max_field_number) number

-- _FIRST_RESERVED_FIELD_NUMBER <= field.number <= _LAST_RESERVED_FIELD_NUMBER
abbrev pub is_implementation_number : ℤ → Bool
is_implementation_number number = leb_int (pos 19000) number && leb_int number (pos 19999)

-- The first two checks.
unfoldable pub validate_field_number : ℤ → Result DescriptorError (Unit {0})
validate_field_number number =
    raise_if (is_out_of_range number) number_out_of_range
    >> raise_if (is_implementation_number number) implementation_number

-- The checks behind those of the number.
unfoldable pub validate_field_type : FieldDescriptor → Bytes → Result DescriptorError (Unit {0})
unfolding text_eq
validate_field_type f syntax =
    raise_if (not (is_valid_label f.label)) invalid_label
    >> raise_if (not (is_valid_type f.type_number)) invalid_type
    >> raise_if (text_eq syntax proto3 && or_one f.label == label_required) required_in_proto3
    >> raise_if (is_typed_reference f && is_empty f.type_name) missing_type_name
    >> raise_if
        (not (is_typed_reference f)
          && not (or_one f.type_number == type_group)
          && not (is_empty f.type_name))
        scalar_type_name

unfoldable pub validate_field_descriptor :
    FieldDescriptor → Bytes → Result DescriptorError (Unit {0})
unfolding validate_field_number validate_field_type
validate_field_descriptor f syntax = validate_field_number f.number >> validate_field_type f syntax

-- field_numbers.get(number) is not None
abbrev pub has_number : ℤ → Numbered → Bool
has_number number = any (λ entry. eq_int number entry.0)

-- The variables of the loop over the fields. A member of oneof_members[index] is kept beside its
-- index.
pub record FieldState : Type 0 where
  pub names : List Bytes
  pub numbers : Numbered
  pub members : List (ℕ × FieldDescriptor)

abbrev pub no_fields : FieldState
no_fields = record { names = []; numbers = []; members = [] }

-- oneof_index < 0 or oneof_index >= oneof_count
abbrev pub is_outside : ℕ → ℤ → Bool
is_outside count (pos index) = leb count index
is_outside count (negsuc index) = true

abbrev pub index_of : ℤ → ℕ
index_of (pos index) = index
index_of (negsuc index) = 0

-- The checks of a field's oneof; what it adds to the members.
unfoldable pub add_member :
    ℕ
    → FieldDescriptor
    → Option ℤ
    → List (ℕ × FieldDescriptor)
    → Result DescriptorError (List (ℕ × FieldDescriptor))
add_member count f none members = ok members
add_member count f (some index) members =
    raise_if (is_outside count index) oneof_out_of_range
    >> raise_if (not (or_one f.label == label_optional)) oneof_not_optional
    >> ok (members ++ (index_of index, f) ∷ [])

-- The checks of a proto3 optional field.
unfoldable pub check_optional : Bytes → FieldDescriptor → Result DescriptorError (Unit {0})
unfolding text_eq
check_optional syntax f =
    raise_if (f.proto3_optional && not (text_eq syntax proto3)) optional_not_proto3
    >> raise_if (f.proto3_optional && not (is_some f.oneof_index)) optional_without_oneof

-- One round of the loop over the fields, up to the oneof.
unfoldable pub check_field :
    Bytes → FieldDescriptor → FieldState → Result DescriptorError (Unit {0})
unfolding text_eq validate_field_descriptor
check_field syntax f s =
    raise_if (is_empty f.name) empty_field_name
    >> raise_if (contains 0 f.name) null_in_field_name
    >> raise_if (text_in f.name s.names) duplicate_field_name
    >> validate_field_descriptor f syntax
    >> raise_if (has_number f.number s.numbers) duplicate_field_number

-- The whole round.
unfoldable pub field_step :
    Bytes → ℕ → FieldDescriptor → FieldState → Result DescriptorError FieldState
unfolding check_field add_member check_optional
field_step syntax count f s =
    check_field syntax f s >> add_member count f f.oneof_index s.members >>= λ members.
    check_optional syntax f
    >> ok (record {
      names = f.name ∷ s.names;
      numbers = s.numbers ++ (f.number, f.name) ∷ [];
      members = members;
    })

unfoldable pub field_loop :
    Bytes → ℕ → List FieldDescriptor → FieldState → Result DescriptorError FieldState
unfolding field_step
field_loop syntax count [] s = ok s
field_loop syntax count (f ∷ fields) s =
    field_step syntax count f s >>= field_loop syntax count fields

-- The loop over the oneofs; `oneof_names` are those of the rounds before.
unfoldable pub check_oneof_names : List Bytes → List Bytes → Result DescriptorError (Unit {0})
unfolding text_eq
check_oneof_names oneof_names [] = ok tt
check_oneof_names oneof_names (name ∷ oneofs) =
    raise_if (is_empty name) empty_oneof_name
    >> raise_if (text_in name oneof_names) duplicate_oneof_name
    >> check_oneof_names (name ∷ oneof_names) oneofs

-- oneof_members[index]
unfoldable pub members_of : ℕ → List (ℕ × FieldDescriptor) → List FieldDescriptor
members_of index [] = []
members_of index ((other, f) ∷ members) =
    if index == other then f ∷ members_of index members else members_of index members

-- oneof_index in synthetic_oneofs
unfoldable pub is_synthetic : List (ℕ × FieldDescriptor) → ℕ → Bool
unfolding members_of
is_synthetic members index = any (λ f. f.proto3_optional) (members_of index members)

-- range(first, first + count)
unfoldable pub indices : ℕ → ℕ → List ℕ
indices first zero = []
indices first (suc count) = first ∷ indices (suc first) count

-- The loop over oneof_members.
unfoldable pub check_synthetic :
    List (ℕ × FieldDescriptor) → List ℕ → Result DescriptorError (Unit {0})
unfolding is_synthetic
check_synthetic members [] = ok tt
check_synthetic members (index ∷ rest) =
    raise_if (is_synthetic members index && not (length (members_of index members) == 1))
      synthetic_not_single
    >> check_synthetic members rest

-- From min(synthetic_oneofs) on, all oneofs are synthetic.
unfoldable pub check_synthetic_last :
    List (ℕ × FieldDescriptor) → List ℕ → Result DescriptorError (Unit {0})
unfolding is_synthetic
check_synthetic_last members [] = ok tt
check_synthetic_last members (index ∷ rest) =
    let later = check_synthetic_last members rest in
    if is_synthetic members index
    then raise_if (any (λ i. not (is_synthetic members i)) (index ∷ rest)) synthetic_before_regular
    else later

unfoldable pub validate_message_descriptor :
    MessageDescriptor → Bytes → Result DescriptorError (Unit {0})
unfolding check_oneof_names field_loop validate_reserved_fields check_synthetic check_synthetic_last
    indices
validate_message_descriptor message syntax =
    let oneofs = indices 0 (length message.oneof_decl) in
    check_oneof_names [] message.oneof_decl
    >> field_loop syntax (length message.oneof_decl) message.fields no_fields
    >>= λ s.
        validate_reserved_fields message s.names s.numbers
        >> check_synthetic s.members oneofs
        >> check_synthetic_last s.members oneofs

-- key.name != "key" or key.number != 1 or key.label != FieldDescriptorProto.LABEL_OPTIONAL
abbrev pub is_other_field : Bytes → ℕ → FieldDescriptor → Bool
is_other_field name number f =
    not (text_eq f.name name)
    || not (eq_int f.number (pos number))
    || not (or_one f.label == label_optional)

-- key.type in _MAP_KEY_TYPES: the integers, bool and string
abbrev pub is_map_key_type : ℕ → Bool
is_map_key_type number =
    (leb 3 number && leb number 9) || number == 13 || (leb 15 number && leb number 18)

-- The loop over the two fields at one of them.
unfoldable pub check_map_field : FieldDescriptor → Result DescriptorError (Unit {0})
check_map_field f =
    raise_if (is_some f.oneof_index || f.proto3_optional) map_entry_oneof
    >> raise_if f.has_default_value map_entry_default

unfoldable pub validate_map_fields :
    MessageDescriptor → List FieldDescriptor → Result DescriptorError (Unit {0})
unfolding check_map_field text_eq
validate_map_fields message (key ∷ value ∷ []) =
    raise_if
      (not (length message.oneof_decl == 0)
        || message.has_extension
        || message.has_extension_range
        || message.has_nested_type
        || message.has_enum_type)
      map_entry_members
    >> raise_if (is_other_field (codes "key") 1 key) map_entry_key
    >> raise_if (not (is_map_key_type (or_one key.type_number))) map_key_type
    >> raise_if (is_other_field (codes "value") 2 value) map_entry_value
    >> check_map_field key
    >> check_map_field value
validate_map_fields message _ = err map_entry_fields

unfoldable pub validate_map_entry_descriptor : MessageDescriptor → Result DescriptorError (Unit {0})
unfolding validate_map_fields
validate_map_entry_descriptor message = validate_map_fields message message.fields
