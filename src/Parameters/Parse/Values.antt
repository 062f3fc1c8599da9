-- ===== src/Parameters/Parse/Values.antt =====
-- Written parameters are read back.
use protocyte.Common.{
  contains, is_empty, is_some, ℕ, ◌≡◌, refl, sym, ap, ◌∙◌, arith, Bool, true, false, not, ◌&&◌,
  List, [], ◌∷◌, ◌++◌, append_assoc, append-nil, ok, ◌>>=◌, ◌>>◌, raise_if, any, all, all-append,
  ◌==◌, if◌then◌else◌, map, text_eq, text_eq_refl, lacks, split, split-join, join, before, after,
  &&-true, not-true,
}
use protocyte.Parameters.Text.{Text, strip, is_space, is_control}
use protocyte.Parameters.Prefix.{empty_key, duplicate_key, control_in_raw_value, spaced_raw_value}
use protocyte.Parameters.Transport.Hex.{is_dense, strip-dense, dense-lacks}
use protocyte.Parameters.Parse.{
  Values, get_value, is_prefix_parameter, add_value, parse_part, parse_parts, is_unknown, values_of,
}

-- key=value
abbrev pub part_of : Text × Text → Text
part_of (key, value) = key ++ b'=' ∷ value

-- The parts with commas between them.
abbrev pub render_values : Values → Text
render_values values = join b',' (map part_of values)

-- A character that is read back: no white space, no control character and no comma.
abbrev pub is_written : ℕ → Bool
is_written c = is_dense c && not (is_control c)

-- A value as it can be written: its key is not empty and has no "=".
abbrev pub is_writable : Text × Text → Bool
is_writable (key, value) =
    not (is_empty key) && lacks b'=' key && all is_written key && all is_written value

-- No key occurs twice, and none is among the keys that were read before.
abbrev pub are_new : Values → Values → Bool
are_new read [] = true
are_new read ((key, value) ∷ values) =
    not (is_some (get_value key read)) && are_new (read ++ (key, value) ∷ []) values

before-lacks :
    (sep : ℕ) (front back : Text)
    → lacks sep front ≡ true
    → before sep (front ++ sep ∷ back) ≡ front
unfolding before
before-lacks sep [] back free = ground arith
before-lacks sep (c ∷ front) back free = ground (arith, before-lacks sep front back)

after-lacks :
    (sep : ℕ) (front back : Text) → lacks sep front ≡ true → after sep (front ++ sep ∷ back) ≡ back
unfolding after
after-lacks sep [] back free = ground arith
after-lacks sep (c ∷ front) back free = ground (arith, after-lacks sep front back)

contains-append : (sep : ℕ) (front back : Text) → contains sep (front ++ sep ∷ back) ≡ true
contains-append sep [] back = ground arith
contains-append sep (c ∷ front) back = ground (arith, contains-append sep front back)

written-dense : (text : Text) → all is_written text ≡ true → all is_dense text ≡ true
written-dense [] written = refl
written-dense (c ∷ text) written =
    let (here, rest) = &&-true (is_written c) _ written in
    rw ((&&-true (is_dense c) _ here).0, written-dense text rest) refl

written-plain : (text : Text) → all is_written text ≡ true → any is_control text ≡ false
written-plain [] written = refl
written-plain (c ∷ text) written =
    let (here, rest) = &&-true (is_written c) _ written in
    rw (not-true (is_control c) (&&-true (is_dense c) _ here).1, written-plain text rest) refl

-- One part: its strictness does not matter to a value without spaces and control characters.
parse_part_checked :
    (key value raw_value : Text) (values : Values) (strict : Bool)
    → is_empty key ≡ false
    → is_some (get_value key values) ≡ false
    → any is_control raw_value ≡ false
    → text_eq raw_value value ≡ true
    → (raise_if (is_empty key) empty_key
        >> raise_if (is_some (get_value key values)) duplicate_key
        >> raise_if (strict && any is_control raw_value) control_in_raw_value
        >> raise_if (strict && not (text_eq raw_value value)) spaced_raw_value
        >> ok (values ++ (key, value) ∷ []))
      ≡ ok (values ++ (key, value) ∷ [])
parse_part_checked key value raw_value values true filled new plain same =
    rw (filled, new, plain, same) refl
parse_part_checked key value raw_value values false filled new plain same = rw (filled, new) refl

add_value-written :
    (key value : Text) (values : Values)
    → is_empty key ≡ false
    → all is_written value ≡ true
    → is_some (get_value key values) ≡ false
    → add_value key value values ≡ ok (values ++ (key, value) ∷ [])
unfolding add_value
add_value-written key value values filled written new =
    let stripped = strip-dense value (written-dense value written) in
    parse_part_checked key (strip value) value values (is_prefix_parameter key (strip value)) filled
      new (written-plain value written) (ap (text_eq value) stripped ∙ text_eq_refl value)
    ∙ ap (λ v. ok (values ++ (key, v) ∷ [])) stripped

-- The key in front of "=" makes a part that is not empty.
part-filled : (key value : Text) → is_empty (key ++ b'=' ∷ value) ≡ false
part-filled [] value = refl
part-filled (c ∷ key) value = refl

parse_part-written :
    (key value : Text) (values : Values)
    → is_writable (key, value) ≡ true
    → is_some (get_value key values) ≡ false
    → parse_part (key ++ b'=' ∷ value) values ≡ ok (values ++ (key, value) ∷ [])
unfolding parse_part is_space
parse_part-written key value values writable new =
    let (front, value_written) =
      &&-true (not (is_empty key) && lacks b'=' key && all is_written key) _ writable in
    let (named, key_written) = &&-true (not (is_empty key) && lacks b'=' key) _ front in
    let (nonempty, free) = &&-true (not (is_empty key)) _ named in
    let filled = not-true (is_empty key) nonempty in
    let key_dense = written-dense key key_written in
    let dense : all is_dense (key ++ b'=' ∷ value) ≡ true =
      all-append is_dense key (b'=' ∷ value) key_dense
        (rw (written-dense value value_written) refl) in
    let whole = strip-dense (key ++ b'=' ∷ value) dense in
    rw
      (
        parse_part,
        whole,
        part-filled key value,
        contains-append b'=' key value,
        before-lacks b'=' key value free,
        after-lacks b'=' key value free,
        strip-dense key key_dense,
      )
      (add_value-written key value values filled value_written new)

parse_parts-written :
    (read values : Values)
    → all is_writable values ≡ true
    → are_new read values ≡ true
    → parse_parts (map part_of values) read ≡ ok (read ++ values)
unfolding parse_parts
parse_parts-written read [] writable new = ap ok (sym (append-nil read))
parse_parts-written read ((key, value) ∷ values) writable new =
    let (here, rest) = &&-true (is_writable (key, value)) _ writable in
    let (fresh, later) = &&-true (not (is_some (get_value key read))) _ new in
    ap (λ r. r >>= parse_parts (map part_of values))
      (parse_part-written key value read here (not-true (is_some (get_value key read)) fresh))
    ∙ parse_parts-written (read ++ (key, value) ∷ []) values rest later
    ∙ ap ok (append_assoc read ((key, value) ∷ []) values)

part_of-lacks :
    (values : Values) → all is_writable values ≡ true → all (lacks b',') (map part_of values) ≡ true
part_of-lacks [] writable = refl
part_of-lacks ((key, value) ∷ values) writable =
    let (here, rest) = &&-true (is_writable (key, value)) _ writable in
    let (front, value_written) =
      &&-true (not (is_empty key) && lacks b'=' key && all is_written key) _ here in
    let (_, key_written) = &&-true (not (is_empty key) && lacks b'=' key) _ front in
    rw
      (
        all-append (λ c. not (c == b',')) key (b'=' ∷ value)
            (dense-lacks key (written-dense key key_written))
            (dense-lacks value (written-dense value value_written)),
        part_of-lacks values rest,
      )
      refl

is_empty-append : (front back : Text) → is_empty front ≡ false → is_empty (front ++ back) ≡ false
is_empty-append [] back filled = cc
is_empty-append (c ∷ front) back filled = refl

is_empty-join :
    (sep : ℕ) (part : Text) (parts : List Text)
    → is_empty part ≡ false
    → is_empty (join sep (part ∷ parts)) ≡ false
unfolding join
is_empty-join sep part [] filled = filled
is_empty-join sep part (next ∷ parts) filled =
    is_empty-append part (sep ∷ join sep (next ∷ parts)) filled

-- The parts of a written parameter.
written_parts :
    (values : Values)
    → all is_writable values ≡ true
    → (if is_empty (render_values values) then [] else split b',' (render_values values))
      ≡ map part_of values
unfolding join
written_parts [] writable = refl
written_parts ((key, value) ∷ values) writable =
    rw (is_empty-join b',' (key ++ b'=' ∷ value) (map part_of values) (part-filled key value)) (
      split-join b',' (key ++ b'=' ∷ value) (map part_of values)
        (part_of-lacks ((key, value) ∷ values) writable))

-- Values that are written as key=value with commas between them are read back as they are and in
-- their order, if their keys are known, differ, and hold no "=", and if neither the keys nor the
-- values hold white space, control characters or commas.
pub values_of-render_values :
    (values : Values)
    → all is_writable values ≡ true
    → are_new [] values ≡ true
    → any is_unknown values ≡ false
    → values_of (render_values values) ≡ ok values
unfolding values_of
values_of-render_values values writable new known =
    let parts = written_parts values writable in
    let read = ap (λ p. parse_parts p []) parts ∙ parse_parts-written [] values writable new in
    rw (values_of, read, known) refl
