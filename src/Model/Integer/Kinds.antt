-- ===== src/Model/Integer/Kinds.antt =====
-- The kind that two kinds of integers have in common.
use protocyte.Common.{◌≡◌, refl, max, Bool, not, ◌&&◌, ◌||◌, ◌==◌, some}
use protocyte.Model.Integer.{
  IntegerKind, int32, uint32, int64, uint64, bits_of, is_signed, common_integer_kind,
}

-- The kind is unsigned and has the given width.
abbrev pub is_unsigned_of : IntegerKind → IntegerKind → Bool
is_unsigned_of kind result = bits_of kind == bits_of result && not (is_signed kind)

-- Two kinds of integers always have a common kind; the order of the two does not matter, it is as
-- wide as the wider of the two, and it is unsigned exactly if one of the two of that width is.
pub common_integer_kind_exists :
    (lhs rhs : IntegerKind)
    → (result : IntegerKind) × (common_integer_kind lhs rhs ≡ some result)
      × (common_integer_kind rhs lhs ≡ some result)
      × (bits_of result ≡ max (bits_of lhs) (bits_of rhs))
      × (is_signed result ≡ not (is_unsigned_of lhs result || is_unsigned_of rhs result))
unfolding common_integer_kind
common_integer_kind_exists int32 int32 = (int32, refl, refl, refl, refl)
common_integer_kind_exists int32 uint32 = (uint32, refl, refl, refl, refl)
common_integer_kind_exists int32 int64 = (int64, refl, refl, refl, refl)
common_integer_kind_exists int32 uint64 = (uint64, refl, refl, refl, refl)
common_integer_kind_exists uint32 int32 = (uint32, refl, refl, refl, refl)
common_integer_kind_exists uint32 uint32 = (uint32, refl, refl, refl, refl)
common_integer_kind_exists uint32 int64 = (int64, refl, refl, refl, refl)
common_integer_kind_exists uint32 uint64 = (uint64, refl, refl, refl, refl)
common_integer_kind_exists int64 int32 = (int64, refl, refl, refl, refl)
common_integer_kind_exists int64 uint32 = (int64, refl, refl, refl, refl)
common_integer_kind_exists int64 int64 = (int64, refl, refl, refl, refl)
common_integer_kind_exists int64 uint64 = (uint64, refl, refl, refl, refl)
common_integer_kind_exists uint64 int32 = (uint64, refl, refl, refl, refl)
common_integer_kind_exists uint64 uint32 = (uint64, refl, refl, refl, refl)
common_integer_kind_exists uint64 int64 = (uint64, refl, refl, refl, refl)
common_integer_kind_exists uint64 uint64 = (uint64, refl, refl, refl, refl)
