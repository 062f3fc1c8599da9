-- ===== src/Names/Tests.antt =====
-- Tests and worked instances for src/protocyte/names.py.
use protocyte.Common.{
  ◌≡◌, refl, true, false, none, some, List, [], ◌∷◌, Bytes, codes, ok, All, text_eq,
}
use protocyte.Names.Identifier.{
  cpp_identifier, cpp_derivable_identifier, cpp_pascal_identifier, is_portable_identifier,
}
use protocyte.Names.Injective.{cpp_identifier-injective}
use protocyte.Names.Portable.{cpp_identifier_portable}
use protocyte.Names.Member.{CppNameKind, EmittedNameMember, EmittedNameRequest, EmittedNameUse}
use protocyte.Names.Scope.{Uses, uses_of, reserve}
use protocyte.Names.Scope.Coexist.{IsUnambiguous, reserve-IsUnambiguous}
use protocyte.Names.Allocate.{allocate}
use protocyte.Names.Allocate.Keeps.{allocate-IsUnambiguous}
use protocyte.Names.Allocate.Placed.{IsPlaced, allocate-IsPlaced}

escapes_keyword : cpp_identifier (codes "int") ≡ codes "int_"
unfolding cpp_identifier text_eq
escapes_keyword = refl

encodes_escaped_keyword : cpp_identifier (codes "int_") ≡ codes "protocyte_escaped_696e745f"
unfolding cpp_identifier text_eq
encodes_escaped_keyword = refl

derivable_of_keyword : cpp_derivable_identifier (codes "int") ≡ codes "int_protocyte"
unfolding cpp_derivable_identifier text_eq
derivable_of_keyword = refl

pascal_of_name : cpp_pascal_identifier (codes "value") ≡ codes "Value"
unfolding cpp_pascal_identifier text_eq
pascal_of_name = refl

cpp_identifier-injective_example : codes "int" ≡ codes "int"
cpp_identifier-injective_example = cpp_identifier-injective (codes "int") (codes "int") refl

cpp_identifier_portable_example : is_portable_identifier (cpp_identifier (codes "a.b")) ≡ true
cpp_identifier_portable_example = cpp_identifier_portable (codes "a.b") refl

empty-IsUnambiguous : IsUnambiguous []
unfolding uses_of
empty-IsUnambiguous = record { coexist = λ name. tt; portable = λ name found. absurd (found refl) }

abbrev getter : EmittedNameUse
getter = record {
  owner = codes "f";
  kind = CppNameKind.field_accessor;
  signature = some (codes "()");
}

reserve-getter : reserve [] (codes "value") getter ≡ ok ((codes "value", getter ∷ []) ∷ [])
unfolding reserve
reserve-getter = refl

reserve-IsUnambiguous_example : IsUnambiguous ((codes "value", getter ∷ []) ∷ [])
reserve-IsUnambiguous_example =
    reserve-IsUnambiguous [] ((codes "value", getter ∷ []) ∷ []) (codes "value") getter
      empty-IsUnambiguous reserve-getter

abbrev digest : Bytes → Bytes
digest text = codes "0123456789abcdef"

abbrev accessor : EmittedNameMember
accessor = record {
  template = codes "{name}";
  kind = CppNameKind.field_accessor;
  signature = none;
  suffix = none;
}

abbrev presence : EmittedNameMember
presence = record {
  template = codes "has_{name}";
  kind = CppNameKind.public_function;
  signature = none;
  suffix = none;
}

-- Two fields that want one name: the second takes the next candidate.
abbrev requests : List EmittedNameRequest
requests =
    record {
      owner = codes "a";
      preferred = codes "value";
      members = accessor ∷ presence ∷ [];
      hash_fallback = false;
      priority = 100;
    }
    ∷ record {
      owner = codes "b";
      preferred = codes "value";
      members = accessor ∷ [];
      hash_fallback = false;
      priority = 10;
    }
    ∷ []

abbrev use_by : Bytes → EmittedNameMember → EmittedNameUse
use_by owner member = record { owner = owner; kind = member.kind; signature = member.signature }

abbrev allocated_uses : Uses
allocated_uses =
    (codes "value", use_by (codes "b") accessor ∷ [])
    ∷ (codes "value_", use_by (codes "a") accessor ∷ [])
    ∷ (codes "has_value_", use_by (codes "a") presence ∷ [])
    ∷ []

abbrev allocated_names : List (Bytes × Bytes)
allocated_names = (codes "b", codes "value") ∷ (codes "a", codes "value_") ∷ []

allocate_two : allocate digest 3 requests [] ≡ ok (allocated_uses, allocated_names)
unfolding allocate
allocate_two = refl

allocate-IsUnambiguous_example : IsUnambiguous allocated_uses
allocate-IsUnambiguous_example =
    allocate-IsUnambiguous digest 3 requests [] allocated_uses allocated_names empty-IsUnambiguous
      allocate_two

allocate-IsPlaced_example : All (IsPlaced allocated_uses allocated_names) requests
unfolding text_eq
allocate-IsPlaced_example =
    allocate-IsPlaced digest 3 requests [] allocated_uses allocated_names ((refl, tt), (tt, tt))
      allocate_two
