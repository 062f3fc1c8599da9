-- ===== src/Model/Descriptor/Enum/Accepted.antt =====
-- The numbers of an accepted enum.
use protocyte.Common.{ℤ, Bool, true, false, not, Option, none, some, List, any}
use protocyte.Model.Descriptor.Ranges.{Range}
use protocyte.Model.Descriptor.Ranges.Find.{contains_value}
use protocyte.Model.Descriptor.Types.{EnumValueDescriptor}
use protocyte.Model.Descriptor.Reserved.{Numbered}
use protocyte.Model.Descriptor.Message.{has_number}

-- The value has a number, and it is among the numbers.
abbrev has_given : Option ℤ → Numbered → Bool
has_given none numbers = false
has_given (some number) numbers = has_number number numbers

-- The value has a number that no range holds.
abbrev pub is_free_value : List Range → EnumValueDescriptor → Bool
is_free_value ranges v = elim v.number [
  | none ↦ false
  | some number ↦ not (any (contains_value true number) ranges)
]
