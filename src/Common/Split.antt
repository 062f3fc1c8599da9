-- ===== src/Common/Split.antt =====
-- str.split and str.join with a separator of one character.
use Prim.Native.Nat.{ℕ}
use mathlib.Core.Path.{ap, ◌≡◌, refl, sym, ap₂}
use mathlib.Core.Bool.{Bool, true, false}
use mathlib.Core.List.{List, [], ◌∷◌, ◌++◌}
use mathlib.Core.Logic.{inl, inr}
use native.Mathlib.Omega.{arith}
use protocyte.Common.Tests.{if◌then◌else◌, ◌==◌, ==_iff, &&-true, Bool-cases}
use protocyte.Common.Lists.{all}
use mathlib.Core.Path.{◌∙◌}
use mathlib.Core.Logic.{◌⊎◌}
use protocyte.Common.Text.{Bytes, lacks, ends_with, ends_with-concat, ends_with-append}

-- text.split(chr(sep)): there is always at least one part.
push_byte : ℕ → List Bytes → List Bytes
push_byte c [] = (c ∷ []) ∷ []
push_byte c (part ∷ parts) = (c ∷ part) ∷ parts

unfoldable pub split : ℕ → Bytes → List Bytes
unfolding push_byte
split sep [] = [] ∷ []
split sep (c ∷ text) = if c == sep then [] ∷ split sep text else push_byte c (split sep text)

-- chr(sep).join(parts)
unfoldable pub join : ℕ → List Bytes → Bytes
join sep [] = []
join sep (part ∷ []) = part
join sep (part ∷ next ∷ parts) = part ++ sep ∷ join sep (next ∷ parts)

pub split_lacking : (sep : ℕ) (part : Bytes) → lacks sep part ≡ true → split sep part ≡ part ∷ []
unfolding split
split_lacking sep [] h = refl
split_lacking sep (c ∷ part) h = ground (arith, split_lacking sep part)

split_at_sep :
    (sep : ℕ) (part text : Bytes)
    → lacks sep part ≡ true
    → split sep (part ++ sep ∷ text) ≡ part ∷ split sep text
unfolding split
split_at_sep sep [] text h = ground arith
split_at_sep sep (c ∷ part) text h = ground (arith, split_at_sep sep part text)

-- Parts without the separator come back from their join.
pub split-join :
    (sep : ℕ) (part : Bytes) (parts : List Bytes)
    → all (lacks sep) (part ∷ parts) ≡ true
    → split sep (join sep (part ∷ parts)) ≡ part ∷ parts
unfolding join
split-join sep part [] h = split_lacking sep part (&&-true (lacks sep part) true h).0
split-join sep part (next ∷ parts) h =
    let (here, rest) = &&-true (lacks sep part) _ h in
    rw (split_at_sep sep part (join sep (next ∷ parts)) here)
      (ap (◌∷◌ part) (split-join sep next parts rest))

-- The part before the first separator: text.split(sep, 1)[0]
unfoldable pub before : ℕ → Bytes → Bytes
before sep [] = []
before sep (c ∷ text) = if c == sep then [] else c ∷ before sep text

all-push_byte :
    (p : ℕ → Bool) (c : ℕ) (parts : List Bytes)
    → p c ≡ true
    → all (all p) parts ≡ true
    → all (all p) (push_byte c parts) ≡ true
unfolding push_byte
all-push_byte p c [] here h = rw here
all-push_byte p c (part ∷ parts) here h = rw (here, h)

pub all-split :
    (p : ℕ → Bool) (sep : ℕ) (text : Bytes)
    → all p text ≡ true
    → all (all p) (split sep text) ≡ true
unfolding split
all-split p sep [] h = refl
all-split p sep (c ∷ text) h =
    let (here, rest) = &&-true (p c) _ h in
    elim (Bool-cases (c == sep)) [
      | inl cut ↦ rw cut (all-split p sep text rest)
      | inr kept ↦ rw kept (all-push_byte p c (split sep text) here (all-split p sep text rest))
    ]

pub split_cons :
    (sep : ℕ) (text : Bytes)
    → (part : Bytes) × (parts : List Bytes) × (split sep text ≡ part ∷ parts)
unfolding split push_byte
split_cons sep [] = ([], [], refl)
split_cons sep (c ∷ text) =
    let (part, parts, e) = split_cons sep text in
    elim (Bool-cases (c == sep)) [
      | inl cut ↦ ([], split sep text, rw cut)
      | inr kept ↦ (c ∷ part, parts, rw (kept, e))
    ]

join-push_byte :
    (sep c : ℕ) (part : Bytes) (parts : List Bytes)
    → join sep ((c ∷ part) ∷ parts) ≡ c ∷ join sep (part ∷ parts)
unfolding join
join-push_byte sep c part [] = refl
join-push_byte sep c part (next ∷ parts) = refl

-- Joining the parts of a split gives the text back.
pub join-split : (sep : ℕ) (text : Bytes) → join sep (split sep text) ≡ text
unfolding split push_byte
join-split sep [] = unfold join in refl
join-split sep (c ∷ text) =
    let (part, parts, e) = split_cons sep text in
    let same = join-split sep text in
    elim (Bool-cases (c == sep)) [
      | inl cut ↦
          let here : c ≡ sep = (==_iff c sep).0 cut in
          rw (cut, e) (join-nil_cons sep part parts ∙ ap₂ ◌∷◌ (sym here) (rw e at same))
      | inr kept ↦ rw (kept, e) (join-push_byte sep c part parts ∙ ap (◌∷◌ c) (rw e at same))
    ]
  where
    join-nil_cons :
        (sep : ℕ) (part : Bytes) (parts : List Bytes)
        → join sep ([] ∷ part ∷ parts) ≡ sep ∷ join sep (part ∷ parts)
    join-nil_cons sep part parts = unfold join in refl

lacks-push_byte :
    (sep c : ℕ) (parts : List Bytes)
    → (c == sep) ≡ false
    → all (lacks sep) parts ≡ true
    → all (lacks sep) (push_byte c parts) ≡ true
unfolding push_byte
lacks-push_byte sep c [] h hs = rw h
lacks-push_byte sep c (part ∷ parts) h hs = rw (h, hs)

-- No part of a split holds the separator.
pub split-lacks : (sep : ℕ) (text : Bytes) → all (lacks sep) (split sep text) ≡ true
unfolding split
split-lacks sep [] = refl
split-lacks sep (c ∷ text) = elim (Bool-cases (c == sep)) [
  | inl cut ↦ rw cut (split-lacks sep text)
  | inr kept ↦ rw kept (lacks-push_byte sep c (split sep text) kept (split-lacks sep text))
]

-- A join whose first part is empty begins with the separator, unless it is the only part.
pub join-nil_cons :
    (sep : ℕ) (parts : List Bytes)
    → (join sep ([] ∷ parts) ≡ []) ⊎ ((text : Bytes) × (join sep ([] ∷ parts) ≡ sep ∷ text))
unfolding join
join-nil_cons sep [] = inl refl
join-nil_cons sep (next ∷ parts) = inr (join sep (next ∷ parts), refl)

-- A join whose last part is empty ends with the separator, unless it is the only part.
pub join-snoc_nil :
    (sep : ℕ) (part : Bytes) (parts : List Bytes)
    → ends_with sep (join sep ((part ∷ parts) ++ [] ∷ [])) ≡ true
unfolding join
join-snoc_nil sep part [] = ends_with-concat sep part
join-snoc_nil sep part (next ∷ parts) =
    ends_with-append sep sep part (join sep ((next ∷ parts) ++ [] ∷ []))
    ∙ ends_cons sep sep (join sep ((next ∷ parts) ++ [] ∷ [])) (join-snoc_nil sep next parts)
  where
    ends_cons :
        (byte c : ℕ) (text : Bytes) → ends_with byte text ≡ true → ends_with byte (c ∷ text) ≡ true
    ends_cons byte c [] h = absurd (unfold ends_with in (cc))
    ends_cons byte c (d ∷ text) h = unfold ends_with in h

-- The part behind the first separator: text.split(sep, 1)[1]
unfoldable pub after : ℕ → Bytes → Bytes
after sep [] = []
after sep (c ∷ text) = if c == sep then text else after sep text
