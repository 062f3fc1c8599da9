-- ===== src/Names/Scope/Coexist.antt =====
-- The invariant of a scope: every emitted name is a portable identifier, and two members share a
-- name only as overloads whose signatures differ.
use protocyte.Common.{
  ◌≡◌, ◌≢◌, refl, sym, subst, ap, true, Option, none, some, List, [], ◌∷◌, ◌++◌, append-nil, Bytes,
  text_eq, text_eq_sound, text_eq_refl, Bool-cases, inl, inr, not-true, &&-true, All, All-append,
  all, any, ok, ok-injective,
}
use protocyte.Names.Identifier.{is_portable_identifier}
use protocyte.Names.Member.{EmittedNameUse, use_eq}
use protocyte.Names.Scope.{
  Uses, uses_of, add_use, add_all, differs, can_overload, can_add, can_add_all, reserve,
}
use protocyte.Names.Scope.Lookup.{uses_of-add_use, uses_of-staged}

-- Both have a signature, and the signatures differ.
pub record Overloads (u v : EmittedNameUse) : Type 0 where
  pub first : Bytes
  pub second : Bytes
  pub first_of : u.signature ≡ some first
  pub second_of : v.signature ≡ some second
  pub apart : first ≢ second

abbrev pub Coexist : List EmittedNameUse → Type 0
Coexist [] = Unit
Coexist (u ∷ us) = All (Overloads u) us × Coexist us

pub record IsUnambiguous (uses : Uses) : Type 0 where
  pub coexist : (name : Bytes) → Coexist (uses_of name uses)
  pub portable : (name : Bytes) → uses_of name uses ≢ [] → is_portable_identifier name ≡ true

Overloads-of_differs :
    (u v : EmittedNameUse) (s : Bytes) (o : Option Bytes)
    → v.signature ≡ some s
    → u.signature ≡ o
    → differs s u ≡ true
    → Overloads u v
unfolding differs
Overloads-of_differs u v s none e d h = cc (rw d at h)
Overloads-of_differs u v s (some t) e d h = record {
  first = t;
  second = s;
  first_of = d;
  second_of = e;
  apart =
      λ same. cc (text_eq_refl s, ap (λ k. text_eq k s) same, not-true (text_eq t s) (rw d at h));
}

Overloads-of_all :
    (xs : List EmittedNameUse) (u : EmittedNameUse) (s : Bytes)
    → u.signature ≡ some s
    → all (differs s) xs ≡ true
    → All (λ x. Overloads x u) xs
Overloads-of_all [] u s e h = tt
Overloads-of_all (x ∷ xs) u s e h =
    let (here, rest) = &&-true (differs s x) _ h in
    (Overloads-of_differs x u s x.signature e refl here, Overloads-of_all xs u s e rest)

Coexist-snoc :
    (xs : List EmittedNameUse) (u : EmittedNameUse)
    → Coexist xs
    → All (λ x. Overloads x u) xs
    → Coexist (xs ++ u ∷ [])
Coexist-snoc [] u h os = (tt, tt)
Coexist-snoc (x ∷ xs) u (hx, hs) (ox, os) =
    (All-append _ xs (u ∷ []) hx (ox, tt), Coexist-snoc xs u hs os)

-- What `_can_add` lets in overloads all that has the name already.
can_overload-Overloads :
    (u : EmittedNameUse) (xs : List EmittedNameUse) (o : Option Bytes)
    → u.signature ≡ o
    → can_overload u xs ≡ true
    → All (λ x. Overloads x u) xs
unfolding can_overload
can_overload-Overloads u [] o e h = tt
can_overload-Overloads u (x ∷ xs) none e h = cc (rw e at h)
can_overload-Overloads u (x ∷ xs) (some s) e h = Overloads-of_all (x ∷ xs) u s e (rw e at h)

module _ (uses staged whole : Uses) (name : Bytes) (u : EmittedNameUse) where
  can_add_parts :
      can_add uses name u (uses_of name staged) ≡ true
      → (is_portable_identifier name ≡ true)
        × (can_overload u (uses_of name uses ++ uses_of name staged) ≡ true)
  unfolding can_add
  can_add_parts h = elim (Bool-cases (is_portable_identifier name)) [
    | inl fine ↦ (fine, rw fine at h)
    | inr bad ↦ absurd (cc (rw bad at h))
  ]

  -- Adding what `_can_add` lets in keeps the invariant.
  pub add_use-IsUnambiguous :
      ((n : Bytes) → uses_of n whole ≡ uses_of n uses ++ uses_of n staged)
      → can_add uses name u (uses_of name staged) ≡ true
      → IsUnambiguous whole
      → IsUnambiguous (add_use name u whole)
  add_use-IsUnambiguous joined h w =
      let (fine, room) = can_add_parts h in
      record {
        coexist = λ n. rw (uses_of-add_use n name u whole) (elim (Bool-cases (text_eq name n)) [
          | inl same ↦ rw same (
              subst (λ k. Coexist (uses_of k whole ++ u ∷ [])) (text_eq_sound name n same)
                (Coexist-snoc (uses_of name whole) u (w.coexist name) (
                  can_overload-Overloads u (uses_of name whole) u.signature refl
                    (rw (joined name) room))))
          | inr other ↦ rw other (w.coexist n)
        ]);
        portable = λ n found. elim (Bool-cases (text_eq name n)) [
          | inl same ↦ subst (λ k. is_portable_identifier k ≡ true) (text_eq_sound name n same) fine
          | inr other ↦ w.portable n (rw (uses_of-add_use n name u whole, other) at found)
        ];
      }

-- After `_can_add_all` says yes, adding every rendered name keeps the invariant.
add_all-staged :
    (rendered : List (Bytes × EmittedNameUse)) (uses staged whole : Uses)
    → ((n : Bytes) → uses_of n whole ≡ uses_of n uses ++ uses_of n staged)
    → can_add_all uses staged rendered ≡ true
    → IsUnambiguous whole
    → IsUnambiguous (add_all whole rendered)
unfolding can_add_all add_all
add_all-staged [] uses staged whole joined h w = w
add_all-staged ((name, u) ∷ rendered) uses staged whole joined h w =
    let (here, rest) = &&-true (can_add uses name u (uses_of name staged)) _ h in
    add_all-staged rendered uses (add_use name u staged) (add_use name u whole)
      (λ n. uses_of-staged n name u uses staged whole (joined n)) rest
      (add_use-IsUnambiguous uses staged whole name u joined here w)

pub add_all-IsUnambiguous :
    (uses : Uses) (rendered : List (Bytes × EmittedNameUse))
    → can_add_all uses [] rendered ≡ true
    → IsUnambiguous uses
    → IsUnambiguous (add_all uses rendered)
add_all-IsUnambiguous uses rendered =
    add_all-staged rendered uses [] uses (λ n. unfold uses_of in sym (append-nil (uses_of n uses)))

-- A `reserve` that does not raise keeps the invariant of the scope: every name that has uses is
-- portable, and uses of one name have signatures that differ.
pub reserve-IsUnambiguous :
    (uses after : Uses) (name : Bytes) (u : EmittedNameUse)
    → IsUnambiguous uses
    → reserve uses name u ≡ ok after
    → IsUnambiguous after
unfolding reserve
reserve-IsUnambiguous uses after name u w h =
    elim (Bool-cases (any (use_eq u) (uses_of name uses))) [
      | inl known ↦ subst IsUnambiguous (ok-injective (rw known at h)) w
      | inr new ↦ elim (Bool-cases (can_add uses name u [])) [
        | inl room ↦ subst IsUnambiguous (ok-injective (rw (new, room) at h)) (
            add_use-IsUnambiguous uses [] uses name u
              (λ n. unfold uses_of in sym (append-nil (uses_of n uses))) room w)
        | inr full ↦ absurd (cc (rw (new, full) at h))
      ]
    ]
