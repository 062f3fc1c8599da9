-- ===== src/Model/Descriptor/Ranges/Sorted.antt =====
-- The sorted ranges, and what it means that no neighbours overlap.
use protocyte.Common.{
  ℤ, leb_int, ltb_int, eq_int, leb_int_trans, leb_int_total, eq_int_sound, ◌≡◌, refl, sym, ap, ◌∙◌,
  Bool, true, false, not, ◌&&◌, ◌||◌, List, [], ◌∷◌, any, all, Bool-cases, inl, inr, &&-true,
  ||-false, subst,
}
use protocyte.Model.Descriptor.Ranges.{Range, range_leb, insert, sorted}

-- r.start <= other.start
abbrev pub starts_before : Range → Range → Bool
starts_before (start, end) (start', end') = leb_int start start'

leb_int_refl : (a : ℤ) → leb_int a a ≡ true
leb_int_refl a = elim (Bool-cases (leb_int a a)) [ inl h ↦ h | inr h ↦ leb_int_total a a h ]

equal_starts : (s s' e e' : ℤ) → (eq_int s s' && leb_int e e') ≡ true → leb_int s s' ≡ true
equal_starts s s' e e' h =
    let same = eq_int_sound s s' (&&-true (eq_int s s') _ h).0 in
    subst (λ x. leb_int s x ≡ true) same (leb_int_refl s)

pub not-false : (b : Bool) → not b ≡ false → b ≡ true
not-false true h = refl
not-false false h = cc

ordered_pair : (r other : Range) → range_leb r other ≡ true → starts_before r other ≡ true
ordered_pair (s, e) (s', e') h = elim (Bool-cases (leb_int s' s)) [
  | inl back ↦ equal_starts s s' e e' (rw back at h)
  | inr forth ↦ leb_int_total s' s forth
]

unordered_pair : (r other : Range) → range_leb r other ≡ false → starts_before other r ≡ true
unordered_pair (s, e) (s', e') h = not-false (leb_int s' s) (||-false (ltb_int s s') _ h).0

all-insert :
    (p : Range → Bool) (r : Range) (ranges : List Range)
    → p r ≡ true
    → all p ranges ≡ true
    → all p (insert r ranges) ≡ true
unfolding insert
all-insert p r [] here rest = rw here refl
all-insert p r (other ∷ ranges) here rest = elim (Bool-cases (range_leb r other)) [
  | inl first ↦ rw (insert, first, here) rest
  | inr later ↦
      let (front, back) = &&-true (p other) _ rest in
      rw (insert, later, front) (all-insert p r ranges here back)
]

swap : (a b c : Bool) → (a || (b || c)) ≡ (b || (a || c))
swap true true c = refl
swap true false c = refl
swap false b c = refl

pub any-insert :
    (p : Range → Bool) (r : Range) (ranges : List Range)
    → any p (insert r ranges) ≡ (p r || any p ranges)
unfolding insert
any-insert p r [] = refl
any-insert p r (other ∷ ranges) = elim (Bool-cases (range_leb r other)) [
  | inl first ↦ rw (insert, first) refl
  | inr later ↦
      rw (insert, later)
        (ap (◌||◌ (p other)) (any-insert p r ranges) ∙ swap (p other) (p r) (any p ranges))
]

-- A test of any range is the same on the sorted ranges.
pub any-sorted : (p : Range → Bool) (ranges : List Range) → any p (sorted ranges) ≡ any p ranges
unfolding sorted
any-sorted p [] = refl
any-sorted p (r ∷ ranges) = any-insert p r (sorted ranges) ∙ ap (◌||◌ (p r)) (any-sorted p ranges)

-- Every range starts before all that follow.
pub data IsOrdered : List Range → Type 0 where
  none_ordered : IsOrdered []
  one_ordered :
      (r : Range) (ranges : List Range)
      → all (starts_before r) ranges ≡ true
      → IsOrdered ranges
      → IsOrdered (r ∷ ranges)

pub all-starts_before :
    (r other : Range) (ranges : List Range)
    → starts_before r other ≡ true
    → all (starts_before other) ranges ≡ true
    → all (starts_before r) ranges ≡ true
all-starts_before r other [] here rest = refl
all-starts_before (s, e) (s', e') ((s'', e'') ∷ ranges) here rest =
    let (next, later) = &&-true (leb_int s' s'') _ rest in
    rw (leb_int_trans s s' s'' here next, all-starts_before (s, e) (s', e') ranges here later) refl

insert-first :
    (r other : Range) (ranges : List Range)
    → range_leb r other ≡ true
    → insert r (other ∷ ranges) ≡ r ∷ other ∷ ranges
unfolding insert
insert-first r other ranges first = rw (insert, first) refl

insert-later :
    (r other : Range) (ranges : List Range)
    → range_leb r other ≡ false
    → insert r (other ∷ ranges) ≡ other ∷ insert r ranges
unfolding insert
insert-later r other ranges later = rw (insert, later) refl

insert-IsOrdered :
    (r : Range) (ranges : List Range) → IsOrdered ranges → IsOrdered (insert r ranges)
unfolding insert
insert-IsOrdered r [] ordered = one_ordered r [] refl none_ordered
insert-IsOrdered r (other ∷ ranges) (one_ordered _ _ later ordered) =
    elim (Bool-cases (range_leb r other)) [
      | inl first ↦
          let before = ordered_pair r other first in
          subst IsOrdered (sym (insert-first r other ranges first)) (
            one_ordered r (other ∷ ranges)
              (rw (before, all-starts_before r other ranges before later) refl)
              (one_ordered other ranges later ordered))
      | inr behind ↦ subst IsOrdered (sym (insert-later r other ranges behind)) (
          one_ordered other (insert r ranges)
            (all-insert (starts_before other) r ranges (unordered_pair r other behind) later)
            (insert-IsOrdered r ranges ordered))
    ]

pub sorted-IsOrdered : (ranges : List Range) → IsOrdered (sorted ranges)
unfolding sorted
sorted-IsOrdered [] = none_ordered
sorted-IsOrdered (r ∷ ranges) = insert-IsOrdered r (sorted ranges) (sorted-IsOrdered ranges)
