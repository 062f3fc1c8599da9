-- ===== src/Model/Descriptor/Message/Accepted.antt =====
-- The field numbers of an accepted message.
use protocyte.Common.{
  contains, is_empty, ℕ, ℤ, eq_int, eq_int_comm, ◌≡◌, refl, sym, ap, ◌∙◌, subst, Bool, true, false,
  not, ◌&&◌, ◌||◌, List, [], ◌∷◌, ◌++◌, append_assoc, append-nil, map, ok, ◌>>◌, raise_if,
  >>=-eq-ok, >>-eq-ok, raise_if-ok, ok-injective, Bytes, text_in, all, &&-true, ||-false, length,
  not-true,
}
use protocyte.Model.Descriptor.Types.{
  FieldDescriptor, MessageDescriptor, number_out_of_range, implementation_number,
  duplicate_field_number, empty_field_name, null_in_field_name, duplicate_field_name,
}
use protocyte.Model.Descriptor.Reserved.{Numbered, validate_reserved_fields}
use protocyte.Model.Descriptor.Reserved.Free.{are_free_numbers, validate_reserved_fields-free}
use protocyte.Model.Descriptor.Message.{
  is_out_of_range, is_implementation_number, validate_field_number, validate_field_type,
  validate_field_descriptor, has_number, FieldState, no_fields, add_member, check_optional,
  check_field, field_step, field_loop, check_oneof_names, check_synthetic, check_synthetic_last,
  indices, validate_message_descriptor,
}

-- The fields' numbers with their names.
abbrev pub numbers_of : List FieldDescriptor → Numbered
numbers_of = map (λ f. (f.number, f.name))

abbrev pub is_usable_number : ℤ → Bool
is_usable_number number = not (is_out_of_range number) && not (is_implementation_number number)

-- No number occurs twice.
abbrev pub are_distinct : Numbered → Bool
are_distinct [] = true
are_distinct ((number, name) ∷ numbers) = not (has_number number numbers) && are_distinct numbers

||-none : (b : Bool) → (b || false) ≡ b
||-none true = refl
||-none false = refl

||-assoc : (a b c : Bool) → ((a || b) || c) ≡ (a || (b || c))
||-assoc true b c = refl
||-assoc false b c = refl

has_number-append :
    (number other : ℤ) (name : Bytes) (numbers : Numbered)
    → has_number number (numbers ++ (other, name) ∷ [])
      ≡ (has_number number numbers || eq_int number other)
has_number-append number other name [] = ||-none (eq_int number other)
has_number-append number other name ((third, name') ∷ numbers) =
    ap (◌||◌ (eq_int number third)) (has_number-append number other name numbers)
    ∙ sym (||-assoc (eq_int number third) (has_number number numbers) (eq_int number other))

are_distinct-append :
    (number : ℤ) (name : Bytes) (numbers : Numbered)
    → are_distinct numbers ≡ true
    → has_number number numbers ≡ false
    → are_distinct (numbers ++ (number, name) ∷ []) ≡ true
are_distinct-append number name [] distinct new = refl
are_distinct-append number name ((other, name') ∷ numbers) distinct new =
    let (fresh, later) = &&-true (not (has_number other numbers)) _ distinct in
    let (apart, rest) = ||-false (eq_int number other) _ new in
    rw
      (
        has_number-append other number name numbers,
        not-true (has_number other numbers) fresh,
        eq_int_comm other number ∙ apart,
        are_distinct-append number name numbers later rest,
      )
      refl

-- What a round that returned has checked, and what it left in the numbers.
field_step-numbers :
    (syntax : Bytes) (count : ℕ) (f : FieldDescriptor) (s : FieldState) {t : FieldState}
    → field_step syntax count f s ≡ ok t
    → (is_usable_number f.number ≡ true)
      × (has_number f.number s.numbers ≡ false)
      × (t.numbers ≡ s.numbers ++ (f.number, f.name) ∷ [])
unfolding field_step check_field validate_field_descriptor validate_field_number
field_step-numbers syntax count f s returned =
    let adds = add_member count f f.oneof_index s.members in
    let named =
      raise_if (is_empty f.name) empty_field_name
      >> raise_if (contains 0 f.name) null_in_field_name
      >> raise_if (text_in f.name s.names) duplicate_field_name in
    let valid = validate_field_descriptor f syntax in
    let unused = raise_if (has_number f.number s.numbers) duplicate_field_number in
    let (members, first, rest) = >>=-eq-ok (check_field syntax f s >> adds) _ returned in
    let (checked, _) = >>-eq-ok (check_field syntax f s) adds first in
    let (before, new) = >>-eq-ok (named >> valid) unused checked in
    let (_, described) = >>-eq-ok named valid before in
    let (number, _) =
      >>-eq-ok (validate_field_number f.number) (validate_field_type f syntax) described in
    let (in_range, outside) =
      >>-eq-ok (raise_if (is_out_of_range f.number) number_out_of_range)
        (raise_if (is_implementation_number f.number) implementation_number) number in
    let (_, same) = >>-eq-ok (check_optional syntax f) (ok _) rest in
    (
      rw
          (
            raise_if-ok (is_out_of_range f.number) number_out_of_range in_range,
            raise_if-ok (is_implementation_number f.number) implementation_number outside,
          )
          refl,
      raise_if-ok (has_number f.number s.numbers) duplicate_field_number new,
      sym (ap (λ u. u.numbers) (ok-injective same)),
    )

field_loop-numbers :
    (syntax : Bytes) (count : ℕ) (fields : List FieldDescriptor) (s : FieldState) {t : FieldState}
    → field_loop syntax count fields s ≡ ok t
    → are_distinct s.numbers ≡ true
    → (all (λ f. is_usable_number f.number) fields ≡ true)
      × (are_distinct t.numbers ≡ true)
      × (t.numbers ≡ s.numbers ++ numbers_of fields)
unfolding field_loop
field_loop-numbers syntax count [] s returned distinct =
    let same = ok-injective returned in
    (
      refl,
      subst (λ u. are_distinct u.numbers ≡ true) same distinct,
      sym (ap (λ u. u.numbers) same) ∙ sym (append-nil s.numbers),
    )
field_loop-numbers syntax count (f ∷ fields) s returned distinct =
    let (u, stepped, rest) =
      >>=-eq-ok (field_step syntax count f s) (field_loop syntax count fields) returned in
    let (usable, new, added) = field_step-numbers syntax count f s stepped in
    let kept =
      subst (λ n. are_distinct n ≡ true) (sym added)
        (are_distinct-append f.number f.name s.numbers distinct new) in
    let (all_usable, all_distinct, numbers) = field_loop-numbers syntax count fields u rest kept in
    (
      rw (usable, all_usable) refl,
      all_distinct,
      numbers
          ∙ ap (λ n. n ++ numbers_of fields) added
          ∙ append_assoc s.numbers ((f.number, f.name) ∷ []) (numbers_of fields),
    )

-- If `_validate_message_descriptor` returns, then the numbers of the message's fields differ from
-- each other, lie in the range of field numbers outside of the part that protobuf keeps for itself,
-- and in none of the message's reserved ranges.
pub validate_message_descriptor-numbers :
    (message : MessageDescriptor) (syntax : Bytes)
    → validate_message_descriptor message syntax ≡ ok tt
    → (are_distinct (numbers_of message.fields) ≡ true)
      × (all (λ f. is_usable_number f.number) message.fields ≡ true)
      × (are_free_numbers false message.reserved_range (numbers_of message.fields) ≡ true)
unfolding validate_message_descriptor
validate_message_descriptor-numbers message syntax returned =
    let oneofs = indices 0 (length message.oneof_decl) in
    let named = check_oneof_names [] message.oneof_decl in
    let loop = field_loop syntax (length message.oneof_decl) message.fields no_fields in
    let (s, first, rest) = >>=-eq-ok (named >> loop) _ returned in
    let (_, ran) = >>-eq-ok named loop first in
    let reserved = validate_reserved_fields message s.names s.numbers in
    let single = check_synthetic s.members oneofs in
    let (before, _) = >>-eq-ok (reserved >> single) (check_synthetic_last s.members oneofs) rest in
    let (passed, _) = >>-eq-ok reserved single before in
    let (usable, distinct, numbers) =
      field_loop-numbers syntax (length message.oneof_decl) message.fields no_fields ran refl in
    (
      subst (λ n. are_distinct n ≡ true) numbers distinct,
      usable,
      subst (λ n. are_free_numbers false message.reserved_range n ≡ true) numbers
          (validate_reserved_fields-free message s.names s.numbers passed).1,
    )
