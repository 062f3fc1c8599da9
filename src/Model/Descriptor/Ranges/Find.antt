-- ===== src/Model/Descriptor/Ranges/Find.antt =====
-- The search by bisection finds what a search through all ranges finds.
use protocyte.Common.{
  is_some, ℕ, suc, ℤ, leb_int, eq_int, leb_int_trans, leb_int_total, eq_int_sound, ◌≡◌, refl, sym,
  ap, ◌∙◌, Bool, true, false, ◌&&◌, ◌||◌, none, some, List, [], ◌∷◌, map, any, all, Bool-cases, inl,
  inr, &&-true, subst,
}
use protocyte.Model.Descriptor.Ranges.{
  Range, sorted, overlaps, find_overlap, overlap_of, sort_ranges_and_find_overlap, bisect_right,
  ends_behind, range_at, before_position, find_containing_range,
}
use protocyte.Model.Descriptor.Ranges.Sorted.{
  starts_before, IsOrdered, one_ordered, sorted-IsOrdered, any-sorted, not-false,
}

-- The range holds the value: its end counts only if `end_inclusive`.
abbrev pub contains_value : Bool → ℤ → Range → Bool
contains_value end_inclusive value (start, end) =
    leb_int start value && ends_behind end_inclusive value end

-- No range overlaps the next one.
pub data IsSpread (end_inclusive : Bool) : List Range → Type 0 where
  spread_none : IsSpread end_inclusive []
  spread_one : (r : Range) → IsSpread end_inclusive (r ∷ [])
  spread_more :
      (r next : Range) (ranges : List Range)
      → overlaps end_inclusive r next ≡ false
      → IsSpread end_inclusive (next ∷ ranges)
      → IsSpread end_inclusive (r ∷ next ∷ ranges)

find_overlap-IsSpread :
    (end_inclusive : Bool) (r : Range) (ranges : List Range)
    → find_overlap end_inclusive r ranges ≡ none
    → IsSpread end_inclusive (r ∷ ranges)
unfolding find_overlap
find_overlap-IsSpread end_inclusive r [] free = spread_one r
find_overlap-IsSpread end_inclusive r (next ∷ ranges) free =
    elim (Bool-cases (overlaps end_inclusive r next)) [
      | inl over ↦ let wrong = (rw (find_overlap, over) at free) in cc
      | inr apart ↦
          spread_more r next ranges apart
            (find_overlap-IsSpread end_inclusive next ranges (rw (find_overlap, apart) at free))
    ]

overlap_of-IsSpread :
    (end_inclusive : Bool) (ranges : List Range)
    → overlap_of end_inclusive ranges ≡ none
    → IsSpread end_inclusive ranges
unfolding overlap_of
overlap_of-IsSpread end_inclusive [] free = spread_none
overlap_of-IsSpread end_inclusive (r ∷ ranges) free =
    find_overlap-IsSpread end_inclusive r ranges free

-- Ranges that start behind the value do not hold it.
behind_value :
    (end_inclusive : Bool) (value : ℤ) (r : Range) (ranges : List Range)
    → all (starts_before r) ranges ≡ true
    → leb_int r.0 value ≡ false
    → any (contains_value end_inclusive value) ranges ≡ false
behind_value end_inclusive value r [] later behind = refl
behind_value end_inclusive value (s, e) ((s', e') ∷ ranges) later behind =
    let (here, rest) = &&-true (leb_int s s') _ later in
    elim (Bool-cases (leb_int s' value)) [
      | inl reaches ↦ let wrong = leb_int_trans s s' value here reaches in cc
      | inr misses ↦ rw misses (behind_value end_inclusive value (s, e) ranges rest behind)
    ]

-- A range does not hold a value that the next range starts before or at.
before_value :
    (end_inclusive : Bool) (value : ℤ) (r next : Range)
    → overlaps end_inclusive r next ≡ false
    → leb_int next.0 value ≡ true
    → ends_behind end_inclusive value r.1 ≡ false
before_value true value (s, e) (s', e') apart reached =
    let passed = leb_int_trans e s' value (leb_int_total s' e apart) reached in
    elim (Bool-cases (eq_int value e)) [
      | inl same ↦
          let touching = subst (λ x. leb_int s' x ≡ true) (eq_int_sound value e same) reached in cc
      | inr other ↦ rw (passed, other) refl
    ]
before_value false value (s, e) (s', e') apart reached =
    let passed = leb_int_trans e s' value (not-false (leb_int e s') apart) reached in rw passed refl

abbrev position : List Range → ℤ → ℕ
position ranges = bisect_right (map (λ r. r.0) ranges)

position-zero :
    (r : Range) (ranges : List Range) (value : ℤ)
    → leb_int r.0 value ≡ false
    → position (r ∷ ranges) value ≡ 0
unfolding bisect_right
position-zero r ranges value behind = rw (bisect_right, behind) refl

position-suc :
    (r : Range) (ranges : List Range) (value : ℤ)
    → leb_int r.0 value ≡ true
    → position (r ∷ ranges) value ≡ suc (position ranges value)
unfolding bisect_right
position-suc r ranges value reached = rw (bisect_right, reached) refl

-- The search at a position that is known.
abbrev search : Bool → ℤ → List Range → ℕ → Bool
search end_inclusive value ranges n =
    is_some (range_at end_inclusive value (before_position n ranges))

search_hit :
    (end_inclusive : Bool) (value : ℤ) (r : Range)
    → is_some (range_at end_inclusive value (some r)) ≡ ends_behind end_inclusive value r.1
search_hit end_inclusive value (s, e) = elim (Bool-cases (ends_behind end_inclusive value e)) [
  | inl holds ↦ rw holds refl
  | inr misses ↦ rw misses refl
]

all_behind :
    (end_inclusive : Bool) (value : ℤ) (r : Range) (ranges : List Range)
    → IsOrdered (r ∷ ranges)
    → leb_int r.0 value ≡ false
    → any (contains_value end_inclusive value) (r ∷ ranges) ≡ false
all_behind end_inclusive value r ranges (one_ordered _ _ later ordered) behind =
    rw behind (behind_value end_inclusive value r ranges later behind)

||-none : (b : Bool) → b ≡ (b || false)
||-none true = refl
||-none false = refl

-- At the last range that starts at or before the value.
search_last :
    (end_inclusive : Bool) (value : ℤ) (r : Range) (ranges : List Range)
    → leb_int r.0 value ≡ true
    → any (contains_value end_inclusive value) ranges ≡ false
    → is_some (range_at end_inclusive value (some r))
      ≡ any (contains_value end_inclusive value) (r ∷ ranges)
search_last end_inclusive value r ranges reached misses =
    search_hit end_inclusive value r
    ∙ rw (reached, misses) (||-none (ends_behind end_inclusive value r.1))

missed : (a : Bool) {b c : Bool} → b ≡ false → c ≡ ((a && b) || c)
missed true never = rw never refl
missed false never = refl

search_spread :
    (end_inclusive : Bool) (value : ℤ) (ranges : List Range)
    → IsOrdered ranges
    → IsSpread end_inclusive ranges
    → search end_inclusive value ranges (position ranges value)
      ≡ any (contains_value end_inclusive value) ranges
unfolding bisect_right
search_spread end_inclusive value [] ordered spread = refl
search_spread end_inclusive value (r ∷ []) ordered spread = elim (Bool-cases (leb_int r.0 value)) [
  | inl reached ↦
      ap (search end_inclusive value (r ∷ [])) (position-suc r [] value reached)
      ∙ search_last end_inclusive value r [] reached refl
  | inr behind ↦
      ap (search end_inclusive value (r ∷ [])) (position-zero r [] value behind)
      ∙ sym (all_behind end_inclusive value r [] ordered behind)
]
search_spread end_inclusive value (r ∷ next ∷ ranges) (one_ordered _ _ later ordered)
      (spread_more _ _ _ apart spread) =
    let rest = next ∷ ranges in
    let whole = search end_inclusive value (r ∷ rest) in
    elim (Bool-cases (leb_int r.0 value)) [
      | inr behind ↦
          ap whole (position-zero r rest value behind)
          ∙ sym (all_behind end_inclusive value r rest (one_ordered r rest later ordered) behind)
      | inl reached ↦ elim (Bool-cases (leb_int next.0 value)) [
        | inl beyond ↦
            ap whole
              (position-suc r rest value reached ∙ ap suc (position-suc next ranges value beyond))
            ∙ sym (ap (search end_inclusive value rest) (position-suc next ranges value beyond))
            ∙ search_spread end_inclusive value rest ordered spread
            ∙ missed (leb_int r.0 value) (before_value end_inclusive value r next apart beyond)
        | inr last ↦
            ap whole
              (position-suc r rest value reached ∙ ap suc (position-zero next ranges value last))
            ∙ search_last end_inclusive value r rest reached
                (all_behind end_inclusive value next ranges ordered last)
      ]
    ]

-- If the sorted ranges do not overlap, then `_find_containing_range` finds a range exactly when
-- some range holds the value, whatever order the ranges were declared in.
pub find_containing_range-any :
    (end_inclusive : Bool) (ranges : List Range) (value : ℤ)
    → (sort_ranges_and_find_overlap end_inclusive ranges).1 ≡ none
    → is_some (
        find_containing_range end_inclusive
          (sort_ranges_and_find_overlap end_inclusive ranges).0
          value)
      ≡ any (contains_value end_inclusive value) ranges
unfolding find_containing_range sort_ranges_and_find_overlap
find_containing_range-any end_inclusive ranges value free =
    search_spread end_inclusive value (sorted ranges) (sorted-IsOrdered ranges)
      (overlap_of-IsSpread end_inclusive (sorted ranges) free)
    ∙ any-sorted (contains_value end_inclusive value) ranges
