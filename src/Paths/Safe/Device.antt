-- ===== src/Paths/Safe/Device.antt =====
-- No normalized segment has the stem of a Windows device.
use protocyte.Common.{
  append-nil, ||-right, ℕ, zero, suc, ◌≡◌, refl, sym, subst, ap, ◌∙◌, arith, Bool, true, false, not,
  ◌&&◌, [], ◌∷◌, ◌++◌, all, any, all-text_in, Bytes, ◌==◌, take, before, Bool-cases, inl, inr, ◌⊎◌,
  not-true,
}
use protocyte.Paths.Segment.{
  windows_reserved_path_names, is_safe_byte, upper_byte, upper, part_of_byte, normalized_bytes,
  is_reserved_device,
}

-- "~" in text
abbrev pub has_mark : Bytes → Bool
has_mark = any (λ c. c == b'~')

reserved_lack_mark : all (λ name. not (has_mark name)) windows_reserved_path_names ≡ true
unfolding windows_reserved_path_names
reserved_lack_mark = refl

upper-has_mark : (text : Bytes) → has_mark text ≡ true → has_mark (upper text) ≡ true
unfolding upper upper_byte
upper-has_mark [] h = cc
upper-has_mark (c ∷ text) h = ground (arith, upper-has_mark text)

-- A stem with a mark is no device.
marked-not-device :
    (segment : Bytes) → has_mark (before b'.' segment) ≡ true → is_reserved_device segment ≡ false
marked-not-device segment h = by_test (Bool-cases (is_reserved_device segment))
  where
    by_test :
        (is_reserved_device segment ≡ true) ⊎ (is_reserved_device segment ≡ false)
        → is_reserved_device segment ≡ false
    by_test (inr free) = free
    by_test (inl device) =
        let lacks =
          all-text_in (λ name. not (has_mark name)) (upper (before b'.' segment))
            windows_reserved_path_names reserved_lack_mark (unfold is_reserved_device in device) in
        absurd (cc (not-true _ lacks, upper-has_mark (before b'.' segment) h))

same_stem-not-device :
    (s t : Bytes)
    → before b'.' s ≡ before b'.' t
    → is_reserved_device t ≡ false
    → is_reserved_device s ≡ false
unfolding is_reserved_device
same_stem-not-device s t same h = rw same h

-- Either the stem is that of the other text, or it has a mark.
abbrev StemOf : Bytes → Bytes → Type 0
StemOf s t = (before b'.' s ≡ before b'.' t) ⊎ (has_mark (before b'.' s) ≡ true)

StemOf-cons : (c : ℕ) (s t : Bytes) → StemOf s t → StemOf (c ∷ s) (c ∷ t)
unfolding before
StemOf-cons c s t (inl same) = elim (Bool-cases (c == b'.')) [
  | inl dot ↦ inl (rw dot)
  | inr other ↦ inl (rw other (ap (◌∷◌ c) same))
]
StemOf-cons c s t (inr marked) = elim (Bool-cases (c == b'.')) [
  | inl dot ↦ inl (rw dot)
  | inr other ↦ inr (rw other (||-right (c == b'~') (has_mark (before b'.' s)) marked))
]

StemOf-part :
    (safe : Bool) (b : ℕ) (s t : Bytes) → StemOf s t → StemOf (part_of_byte safe b ++ s) (b ∷ t)
unfolding part_of_byte
StemOf-part true b s t h = StemOf-cons b s t h
StemOf-part false b s t h = inr (unfold before in refl)

normalized_bytes-StemOf :
    (last : Bool) (text : Bytes) → StemOf (normalized_bytes false last text) text
unfolding normalized_bytes
normalized_bytes-StemOf last [] = inl refl
normalized_bytes-StemOf last (b ∷ []) =
    subst (λ s. StemOf s (b ∷ [])) (append-nil _)
      (StemOf-part (is_safe_byte b && true && not last) b [] [] (inl refl))
normalized_bytes-StemOf last (b ∷ c ∷ text) =
    StemOf-part (is_safe_byte b && true) b (normalized_bytes false last (c ∷ text)) (c ∷ text)
      (normalized_bytes-StemOf last (c ∷ text))

part_of_byte-mark :
    (safe : Bool) (b : ℕ) (behind : Bytes)
    → safe ≡ false
    → (rest : Bytes) × (part_of_byte safe b ++ behind ≡ b'~' ∷ rest)
unfolding part_of_byte
part_of_byte-mark true b behind h = absurd (cc)
part_of_byte-mark false b behind h = (_, refl)

unsafe_first : (a b : Bool) → ((a && not true) ≡ false) × ((a && not true && b) ≡ false)
unsafe_first a b = ground arith

-- An escaped first byte puts a mark at the front.
normalized_bytes-mark :
    (last : Bool) (b : ℕ) (text : Bytes)
    → (rest : Bytes) × (normalized_bytes true last (b ∷ text) ≡ b'~' ∷ rest)
unfolding normalized_bytes
normalized_bytes-mark last b [] =
    let (rest, e) =
      part_of_byte-mark (is_safe_byte b && not true && not last) b []
        (unsafe_first (is_safe_byte b) (not last)).1 in
    (rest, sym (append-nil _) ∙ e)
normalized_bytes-mark last b (c ∷ text) =
    part_of_byte-mark (is_safe_byte b && not true) b (normalized_bytes false last (c ∷ text))
      (unsafe_first (is_safe_byte b) true).0

marked_front-not-device : (text : Bytes) → is_reserved_device (b'~' ∷ text) ≡ false
marked_front-not-device text = marked-not-device (b'~' ∷ text) (unfold before in refl)

-- Cutting a text and marking the cut keeps the stem or puts a mark into it.
cut-StemOf : (n : ℕ) (s rest : Bytes) → StemOf (take n s ++ b'~' ∷ rest) s
cut-StemOf zero s rest = inr (unfold before in refl)
cut-StemOf (suc n) [] rest = inr (unfold before in refl)
cut-StemOf (suc n) (c ∷ s) rest = StemOf-cons c (take n s ++ b'~' ∷ rest) s (cut-StemOf n s rest)

StemOf-not-device :
    (s t : Bytes) → StemOf s t → is_reserved_device t ≡ false → is_reserved_device s ≡ false
StemOf-not-device s t (inl same) h = same_stem-not-device s t same h
StemOf-not-device s t (inr marked) h = marked-not-device s marked

empty-not-device : is_reserved_device [] ≡ false
unfolding is_reserved_device
empty-not-device = refl

marked-not-device_eq : (s rest : Bytes) → s ≡ b'~' ∷ rest → is_reserved_device s ≡ false
marked-not-device_eq s rest e = rw e (marked_front-not-device rest)

-- The normalized segment is no device, and neither is a cut of it with a marked digest behind.
pub normalized-not-device :
    (last : Bool) (segment : Bytes)
    → is_reserved_device (normalized_bytes (is_reserved_device segment) last segment) ≡ false
normalized-not-device last [] = rw empty-not-device (unfold normalized_bytes in empty-not-device)
normalized-not-device last (b ∷ text) = elim (Bool-cases (is_reserved_device (b ∷ text))) [
  | inl device ↦
      let (rest, e) = normalized_bytes-mark last b text in rw device (marked-not-device_eq _ rest e)
  | inr free ↦
      rw free (StemOf-not-device _ (b ∷ text) (normalized_bytes-StemOf last (b ∷ text)) free)
]

pub cut-not-device :
    (n : ℕ) (s digest : Bytes)
    → is_reserved_device s ≡ false
    → is_reserved_device (take n s ++ b'~' ∷ digest) ≡ false
cut-not-device n s digest h = StemOf-not-device _ s (cut-StemOf n s digest) h
