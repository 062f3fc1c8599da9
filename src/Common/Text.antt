-- ===== src/Common/Text.antt =====
-- Texts of the program as their UTF-8 bytes, so that `str.encode("utf-8")` is the identity, and
-- the operations of `str` and `bytes` that the program calls.
use Prim.Native.Nat.{ℕ}
use Prim.Native.Char.{code}
use Prim.Native.String.{String}
use mathlib.Core.Path.{◌≡◌, refl, sym, subst, ap₂}
use mathlib.Core.Bool.{not, Bool, true, false, ◌&&◌}
use mathlib.Core.List.{List, [], ◌∷◌, ◌++◌}
use mathlib.Core.Logic.{inl, inr}
use native.Mathlib.Omega.{arith}
use protocyte.Common.Tests.{◌==◌, ==_iff, ==_refl, &&-true, Bool-cases}
use protocyte.Common.Lists.{any, all}

abbrev pub Bytes : Type 0
Bytes = List ℕ

-- The bytes of a literal; all literals are ASCII.
abbrev pub codes : String → Bytes
codes String.[] = []
codes (String.◌∷◌ c s) = code c ∷ codes s

-- a == b
unfoldable pub text_eq : Bytes → Bytes → Bool
text_eq [] [] = true
text_eq [] (y ∷ ys) = false
text_eq (x ∷ xs) [] = false
text_eq (x ∷ xs) (y ∷ ys) = (x == y) && text_eq xs ys

-- name in table
abbrev pub text_in : Bytes → List Bytes → Bool
text_in name = any (text_eq name)

-- text == ""
abbrev pub is_empty : Bytes → Bool
is_empty [] = true
is_empty (c ∷ text) = false

-- chr(c) in text
abbrev pub contains : ℕ → Bytes → Bool
contains c = any (λ d. d == c)

-- text.startswith(prefix)
unfoldable pub starts_with : Bytes → Bytes → Bool
starts_with [] text = true
starts_with (p ∷ ps) [] = false
starts_with (p ∷ ps) (c ∷ text) = (p == c) && starts_with ps text

-- text.endswith(chr(byte))
unfoldable pub ends_with : ℕ → Bytes → Bool
ends_with byte [] = false
ends_with byte (c ∷ []) = c == byte
ends_with byte (c ∷ d ∷ text) = ends_with byte (d ∷ text)

pub text_eq_sound : (a b : Bytes) → text_eq a b ≡ true → a ≡ b
unfolding text_eq
text_eq_sound [] [] h = refl
text_eq_sound [] (y ∷ ys) h = cc
text_eq_sound (x ∷ xs) [] h = cc
text_eq_sound (x ∷ xs) (y ∷ ys) h =
    let (same, rest) = &&-true (x == y) (text_eq xs ys) h in
    ap₂ ◌∷◌ ((==_iff x y).0 same) (text_eq_sound xs ys rest)

pub text_eq_refl : (a : Bytes) → text_eq a a ≡ true
unfolding text_eq
text_eq_refl [] = refl
text_eq_refl (x ∷ xs) = ground (arith, text_eq_refl xs)

pub starts_with-append : (p rest : Bytes) → starts_with p (p ++ rest) ≡ true
unfolding starts_with
starts_with-append [] rest = refl
starts_with-append (x ∷ p) rest = ground (arith, starts_with-append p rest)

pub ends_with-concat : (byte : ℕ) (text : Bytes) → ends_with byte (text ++ byte ∷ []) ≡ true
unfolding ends_with
ends_with-concat byte [] = ==_refl byte
ends_with-concat byte (c ∷ []) = ==_refl byte
ends_with-concat byte (c ∷ d ∷ text) = ends_with-concat byte (d ∷ text)

-- A test that holds at every member of a table holds at a text found in it.
pub all-text_in :
    (p : Bytes → Bool) (name : Bytes) (table : List Bytes)
    → all p table ≡ true
    → text_in name table ≡ true
    → p name ≡ true
all-text_in p name [] h found = cc
all-text_in p name (k ∷ table) h found = elim (Bool-cases (text_eq name k)) [
  | inl same ↦ subst (λ n. p n ≡ true) (sym (text_eq_sound name k same)) (&&-true (p k) _ h).0
  | inr other ↦ all-text_in p name table (&&-true (p k) _ h).1 (rw other at found)
]

pub text_eq_comm : (a b : Bytes) → text_eq a b ≡ text_eq b a
unfolding text_eq
text_eq_comm [] [] = refl
text_eq_comm [] (y ∷ b) = refl
text_eq_comm (x ∷ a) [] = refl
text_eq_comm (x ∷ a) (y ∷ b) = ground (arith, text_eq_comm a b)

abbrev pub lacks : ℕ → Bytes → Bool
lacks sep = all (λ c. not (c == sep))

pub ends_with-append :
    (byte c : ℕ) (front back : Bytes)
    → ends_with byte (front ++ c ∷ back) ≡ ends_with byte (c ∷ back)
unfolding ends_with
ends_with-append byte c [] back = refl
ends_with-append byte c (x ∷ []) back = refl
ends_with-append byte c (x ∷ y ∷ front) back = ends_with-append byte c (y ∷ front) back

pub ends_with-lacks :
    (byte : ℕ) (text : Bytes) → lacks byte text ≡ true → ends_with byte text ≡ false
unfolding ends_with
ends_with-lacks byte [] h = refl
ends_with-lacks byte (c ∷ []) h = ground arith
ends_with-lacks byte (c ∷ d ∷ text) h =
    ends_with-lacks byte (d ∷ text) (&&-true (not (c == byte)) (lacks byte (d ∷ text)) h).1
