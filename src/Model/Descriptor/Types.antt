-- ===== src/Model/Descriptor/Types.antt =====
-- The parts of the descriptors that the checks read, and the places at which the checks raise. A
-- number that the descriptor need not have is an option; what a missing one reads as is written
-- where it is read.
use protocyte.Common.{ℕ, ℤ, Bool, Option, List, Bytes, codes}
use protocyte.Model.Descriptor.Ranges.{Range}

pub record FieldDescriptor : Type 0 where
  pub name : Bytes
  pub number : ℤ
  pub label : Option ℕ
  pub type_number : Option ℕ
  pub type_name : Bytes
  pub oneof_index : Option ℤ
  pub proto3_optional : Bool
  pub has_default_value : Bool

-- The four flags say whether the list of that name has members.
pub record MessageDescriptor : Type 0 where
  pub oneof_decl : List Bytes
  pub fields : List FieldDescriptor
  pub reserved_name : List Bytes
  pub reserved_range : List Range
  pub has_extension : Bool
  pub has_extension_range : Bool
  pub has_nested_type : Bool
  pub has_enum_type : Bool

pub record EnumValueDescriptor : Type 0 where
  pub name : Bytes
  pub number : Option ℤ

pub record EnumDescriptor : Type 0 where
  pub name : Bytes
  pub values : List EnumValueDescriptor
  pub allow_alias : Bool
  pub reserved_name : List Bytes
  pub reserved_range : List (Option ℤ × Option ℤ)

-- The places at which the checks raise ProtocyteError.
pub data DescriptorError : Type 0 where
  empty_oneof_name duplicate_oneof_name : DescriptorError
  empty_field_name null_in_field_name duplicate_field_name duplicate_field_number : DescriptorError
  number_out_of_range implementation_number invalid_label invalid_type required_in_proto3 :
      DescriptorError
  missing_type_name scalar_type_name : DescriptorError
  oneof_out_of_range oneof_not_optional optional_not_proto3 optional_without_oneof : DescriptorError
  empty_reserved_name duplicate_reserved_name reserved_name_used : DescriptorError
  invalid_range overlapping_ranges reserved_number_used : DescriptorError
  synthetic_not_single synthetic_before_regular : DescriptorError
  map_entry_fields map_entry_members map_entry_key map_key_type map_entry_value map_entry_oneof
        map_entry_default :
      DescriptorError
  empty_enum_name no_enum_values empty_value_name missing_number duplicate_value_name
        alias_not_allowed :
      DescriptorError
  first_not_zero incomplete_range : DescriptorError

-- FieldDescriptorProto.LABEL_*
abbrev pub label_optional : ℕ
label_optional = 1

abbrev pub label_required : ℕ
label_required = 2

abbrev pub label_repeated : ℕ
label_repeated = 3

-- FieldDescriptorProto.TYPE_*
abbrev pub type_group : ℕ
type_group = 10

abbrev pub type_message : ℕ
type_message = 11

abbrev pub type_enum : ℕ
type_enum = 14

abbrev pub type_sint64 : ℕ
type_sint64 = 18

-- _MAX_FIELD_NUMBER
abbrev pub max_field_number : ℕ
max_field_number = 536870911

abbrev pub proto3 : Bytes
proto3 = codes "proto3"
