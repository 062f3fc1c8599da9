-- ===== src/Names/Member.antt =====
-- The data of src/protocyte/names.py: kinds, members, requests and uses of emitted names, and how
-- a member is rendered for a stem.
use protocyte.Common.{
  ℕ, zero, suc, Bool, true, false, not, ◌&&◌, ◌||◌, Option, none, some, List, [], ◌∷◌, ◌++◌, Bytes,
  codes, text_eq, starts_with, ends_with, ◌==◌, if◌then◌else◌, Result, ok, err, ◌>>=◌,
}

pub data CppNameKind : Type 0 where
  namespace type type_alias field_accessor constant enum_value oneof_case_type oneof_case_value :
      CppNameKind
  public_function private_storage implementation : CppNameKind

-- The values of auto().
unfoldable pub kind_value : CppNameKind → ℕ
kind_value CppNameKind.namespace = 1
kind_value CppNameKind.type = 2
kind_value CppNameKind.type_alias = 3
kind_value CppNameKind.field_accessor = 4
kind_value CppNameKind.constant = 5
kind_value CppNameKind.enum_value = 6
kind_value CppNameKind.oneof_case_type = 7
kind_value CppNameKind.oneof_case_value = 8
kind_value CppNameKind.public_function = 9
kind_value CppNameKind.private_storage = 10
kind_value CppNameKind.implementation = 11

pub record EmittedNameMember : Type 0 where
  pub template : Bytes
  pub kind : CppNameKind
  pub signature : Option Bytes
  pub suffix : Option Bytes

pub record EmittedNameRequest : Type 0 where
  pub owner : Bytes
  pub preferred : Bytes
  pub members : List EmittedNameMember
  pub hash_fallback : Bool
  pub priority : ℕ

pub record EmittedNameUse : Type 0 where
  pub owner : Bytes
  pub kind : CppNameKind
  pub signature : Option Bytes

-- Why `reserve` or `allocate` raises; `out_of_candidates` is the end of the model's fuel.
pub data NameError : Type 0 where
  suffix_with_template bad_template name_conflict out_of_candidates : NameError

-- template.format(name=stem), where the number says how many bytes of a field are still to be
-- skipped. A field other than `{name}` or a lone brace raises.
unfoldable pub format_name : Bytes → ℕ → Bytes → Result NameError Bytes
format_name stem skip [] = ok []
format_name stem (suc skip) (c ∷ text) = format_name stem skip text
format_name stem zero (c ∷ text) =
    let field = format_name stem 5 text in
    let brace = format_name stem 1 text in
    let plain = format_name stem 0 text in
    if starts_with (codes "{name}") (c ∷ text)
    then (do rest ← field; ok (stem ++ rest))
    else if starts_with (codes "{{") (c ∷ text) || starts_with (codes "}}") (c ∷ text)
    then (do rest ← brace; ok (c ∷ rest))
    else if c == b'{' || c == b'}'
    then err NameError.bad_template
    else (do rest ← plain; ok (c ∷ rest))

unfoldable pub render : EmittedNameMember → Bytes → Result NameError Bytes
unfolding format_name text_eq starts_with ends_with
render member stem = elim member.suffix [
  | none ↦ format_name stem 0 member.template
  | some suffix ↦
      if not (text_eq member.template (codes "{name}"))
      then err NameError.suffix_with_template
      else if ends_with b'_' stem
      then ok (stem ++ suffix ++ codes "_")
      else ok (stem ++ codes "_" ++ suffix)
]

-- use == other, the dataclass's equality
unfoldable pub option_eq : Option Bytes → Option Bytes → Bool
option_eq none none = true
option_eq none (some b) = false
option_eq (some a) none = false
option_eq (some a) (some b) = text_eq a b

unfoldable pub use_eq : EmittedNameUse → EmittedNameUse → Bool
unfolding text_eq kind_value option_eq
use_eq u v =
    text_eq u.owner v.owner
    && kind_value u.kind == kind_value v.kind
    && option_eq u.signature v.signature
