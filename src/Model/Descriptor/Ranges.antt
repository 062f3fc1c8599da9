-- ===== src/Model/Descriptor/Ranges.antt =====
-- `_sort_ranges_and_find_overlap` and `_find_containing_range` of src/protocyte/model.py.
pub mod Sorted
pub mod Find
use protocyte.Common.{
  ℕ, zero, suc, ℤ, leb_int, ltb_int, eq_int, Bool, true, false, ◌&&◌, ◌||◌, Option, none, some,
  List, [], ◌∷◌, map, get_elem?, if◌then◌else◌,
}

-- (start, end)
abbrev pub Range : Type 0
Range = ℤ × ℤ

-- The order of tuples.
abbrev pub range_leb : Range → Range → Bool
range_leb (start, end) (start', end') =
    ltb_int start start' || (eq_int start start' && leb_int end end')

unfoldable pub insert : Range → List Range → List Range
insert r [] = r ∷ []
insert r (other ∷ ranges) = elim (range_leb r other) [
  | true ↦ r ∷ other ∷ ranges
  | false ↦ other ∷ insert r ranges
]

-- sorted(ranges)
unfoldable pub sorted : List Range → List Range
unfolding insert
sorted [] = []
sorted (r ∷ ranges) = insert r (sorted ranges)

-- current[0] <= previous[1] if end_inclusive else current[0] < previous[1]
abbrev pub overlaps : Bool → Range → Range → Bool
overlaps end_inclusive (start, end) (start', end') =
    if end_inclusive then leb_int start' end else ltb_int start' end

-- The loop over ordered[1:].
unfoldable pub find_overlap : Bool → Range → List Range → Option (Range × Range)
find_overlap end_inclusive previous [] = none
find_overlap end_inclusive previous (current ∷ ranges) =
    elim (overlaps end_inclusive previous current) [
      | true ↦ some (previous, current)
      | false ↦ find_overlap end_inclusive current ranges
    ]

unfoldable pub overlap_of : Bool → List Range → Option (Range × Range)
unfolding find_overlap
overlap_of end_inclusive [] = none
overlap_of end_inclusive (first ∷ ranges) = find_overlap end_inclusive first ranges

unfoldable pub sort_ranges_and_find_overlap :
    Bool → List Range → List Range × Option (Range × Range)
unfolding sorted overlap_of
sort_ranges_and_find_overlap end_inclusive ranges =
    (sorted ranges, overlap_of end_inclusive (sorted ranges))

-- bisect.bisect_right(starts, value) of sorted starts: how many of them are at most value
unfoldable pub bisect_right : List ℤ → ℤ → ℕ
bisect_right [] value = 0
bisect_right (start ∷ starts) value = elim (leb_int start value) [
  | true ↦ suc (bisect_right starts value)
  | false ↦ 0
]

-- value < end or (end_inclusive and value == end)
abbrev pub ends_behind : Bool → ℤ → ℤ → Bool
ends_behind end_inclusive value end = ltb_int value end || (end_inclusive && eq_int value end)

-- The test at ranges[range_index].
abbrev pub range_at : Bool → ℤ → Option Range → Option Range
range_at end_inclusive value none = none
range_at end_inclusive value (some (start, end)) =
    if ends_behind end_inclusive value end then some (start, end) else none

-- The range before the position that bisect_right gives; none at position 0.
abbrev pub before_position : ℕ → List Range → Option Range
before_position zero ranges = none
before_position (suc range_index) ranges = get_elem? ranges range_index

unfoldable pub find_containing_range : Bool → List Range → ℤ → Option Range
unfolding bisect_right
find_containing_range end_inclusive ranges value =
    range_at end_inclusive value
      (before_position (bisect_right (map (λ r. r.0) ranges) value) ranges)
