-- ===== src/Paths/Safe.antt =====
-- Every component of a normalized path is a portable file name within its bound.
mod Alphabet
mod Device
pub use Alphabet.{HexDigest, is_path_byte, is_byte, length-digest_of, digest_of_safe}
use protocyte.Common.{
  all-split, split_cons, ends_with-append, ends_with-lacks, ℕ, suc, ◌+◌, ◌-◌, ◌≤◌, ◌<◌, ◌≡◌, refl,
  sym, subst, ap, ◌∙◌, arith, Bool, true, false, not, ◌&&◌, List, [], ◌∷◌, ◌++◌, all, all-append,
  all-take, Bytes, codes, leb, ltb, leb→le, ◌==◌, if◌then◌else◌, length, length-append, length-take,
  take, split, join, split-join, lacks, ends_with, Bool-cases, inl, inr, &&-true, min,
}
use protocyte.Paths.Segment.{
  max_component_bytes, max_stem_bytes, normalized_bytes, is_safe_byte, normalized_segment,
  digest_of, is_reserved_device, normalize_generated_segment, normalize_segments,
  normalize_generated_path,
}
use Alphabet.{normalized_bytes_safe, normalized_bytes_no_dot}
use Device.{normalized-not-device, cut-not-device}

-- What a path component must be: at most `bound` bytes, all of them letters, digits, ".", "_",
-- "-" or "~", with no dot at the end and not the stem of a Windows device.
pub record IsPortable (bound : ℕ) (name : Bytes) : Type 0 where
  pub fits : length name ≤ bound
  pub bytes : all is_path_byte name ≡ true
  pub no_dot : ends_with b'.' name ≡ false
  pub no_device : is_reserved_device name ≡ false

-- All components within the bound of a component, and the last within the bound of a stem.
abbrev pub ArePortable : List Bytes → Type 0
ArePortable [] = Unit
ArePortable (name ∷ []) = IsPortable max_stem_bytes name
ArePortable (name ∷ next ∷ names) = IsPortable max_component_bytes name × ArePortable (next ∷ names)

module _ (sha256_hexdigest : Bytes → Bytes) (hashlib : HexDigest sha256_hexdigest) where
  cut-IsPortable :
      (bound : ℕ) (segment normalized : Bytes)
      → 65 ≤ bound
      → all is_path_byte normalized ≡ true
      → is_reserved_device normalized ≡ false
      → IsPortable bound (
          take (bound - length (digest_of sha256_hexdigest segment) - 1) normalized
          ++ b'~' ∷ digest_of sha256_hexdigest segment)
  cut-IsPortable bound segment normalized room bytes free =
      let digest = digest_of sha256_hexdigest segment in
      let size = length-digest_of sha256_hexdigest hashlib segment in
      let (safe, no_dot) = digest_of_safe sha256_hexdigest hashlib segment in
      let front = take (bound - length digest - 1) normalized in
      record {
        fits = omega (
          arith,
          size,
          length-append {0} front (b'~' ∷ digest),
          length-take {0} (bound - length digest - 1) normalized,
        );
        bytes =
            all-append is_path_byte front (b'~' ∷ digest)
              (all-take is_path_byte (bound - length digest - 1) normalized bytes)
              (rw safe (unfold is_safe_byte in refl));
        no_dot =
            ends_with-append b'.' b'~' front digest
            ∙ ends_with-lacks b'.' (b'~' ∷ digest) (rw no_dot);
        no_device = cut-not-device (bound - length digest - 1) normalized digest free;
      }

  pub normalize_generated_segment-IsPortable :
      (bound : ℕ) (segment : Bytes)
      → 65 ≤ bound
      → all is_byte segment ≡ true
      → IsPortable bound (normalize_generated_segment sha256_hexdigest bound segment)
  unfolding normalize_generated_segment
  normalize_generated_segment-IsPortable bound segment room small =
      let device = is_reserved_device segment in
      let dot = ends_with b'.' segment in
      let bytes = normalized_bytes_safe device dot segment small in
      let free = normalized-not-device dot segment in
      elim (Bool-cases (leb (length (normalized_segment segment)) bound)) [
        | inl short ↦ rw short (record {
          fits = leb→le _ _ short;
          bytes = bytes;
          no_dot = normalized_bytes_no_dot device segment small;
          no_device = free;
        })
        | inr long ↦
            rw long (cut-IsPortable bound segment (normalized_segment segment) room bytes free)
      ]

  normalize_segments_cons :
      (segment : Bytes) (segments : List Bytes)
      → (name : Bytes) × (names : List Bytes) × (normalize_segments sha256_hexdigest
            (segment ∷ segments)
          ≡ name ∷ names)
  unfolding normalize_segments
  normalize_segments_cons segment [] = (_, [], refl)
  normalize_segments_cons segment (next ∷ segments) = (_, _, refl)

  normalize_segments-ArePortable :
      (segments : List Bytes)
      → all (all is_byte) segments ≡ true
      → ArePortable (normalize_segments sha256_hexdigest segments)
  unfolding normalize_segments
  normalize_segments-ArePortable [] h = tt
  normalize_segments-ArePortable (s ∷ []) h =
      normalize_generated_segment-IsPortable max_stem_bytes s (omega arith)
        (&&-true (all is_byte s) true h).0
  normalize_segments-ArePortable (s ∷ next ∷ segments) h =
      let (here, rest) = &&-true (all is_byte s) _ h in
      let (name, names, e) = normalize_segments_cons next segments in
      let behind = normalize_segments-ArePortable (next ∷ segments) rest in
      let head = normalize_generated_segment sha256_hexdigest max_component_bytes s in
      subst (λ ns. ArePortable (head ∷ ns)) (sym e)
        (
          normalize_generated_segment-IsPortable max_component_bytes s (omega arith) here,
          subst ArePortable e behind,
        )

  path_byte_no_slash : (c : ℕ) → is_path_byte c ≡ true → not (c == b'/') ≡ true
  unfolding is_safe_byte
  path_byte_no_slash c h = ground arith

  path_bytes_no_slash : (name : Bytes) → all is_path_byte name ≡ true → lacks b'/' name ≡ true
  path_bytes_no_slash [] h = refl
  path_bytes_no_slash (c ∷ name) h =
      let (here, rest) = &&-true (is_path_byte c) _ h in
      rw (path_byte_no_slash c here) (path_bytes_no_slash name rest)

  portable_no_slash : (names : List Bytes) → ArePortable names → all (lacks b'/') names ≡ true
  portable_no_slash [] h = refl
  portable_no_slash (name ∷ []) h = rw (path_bytes_no_slash name h.bytes)
  portable_no_slash (name ∷ next ∷ names) (here, rest) =
      rw (path_bytes_no_slash name here.bytes) (portable_no_slash (next ∷ names) rest)

  -- The components between the slashes of a normalized path are the normalized segments.
  pub split-normalized :
      (path : Bytes)
      → all is_byte path ≡ true
      → split b'/' (join b'/' (normalize_segments sha256_hexdigest (split b'/' path)))
        ≡ normalize_segments sha256_hexdigest (split b'/' path)
  split-normalized path small =
      let (segment, segments, cut) = split_cons b'/' path in
      let (name, names, e) = normalize_segments_cons segment segments in
      let portable =
        normalize_segments-ArePortable (split b'/' path) (all-split is_byte b'/' path small) in
      let whole : normalize_segments sha256_hexdigest (split b'/' path) ≡ name ∷ names = rw cut e in
      subst (λ ns. split b'/' (join b'/' ns) ≡ ns) (sym whole)
        (split-join b'/' name names
          (portable_no_slash (name ∷ names) (subst ArePortable whole portable)))

  -- For a virtual path of bytes below 256, and a digest of 64 hexadecimal digits, the components
  -- of the normalized path between its slashes are portable: letters, digits, ".", "_", "-" and
  -- "~" alone, no dot at the end, no stem of a Windows device, at most 255 bytes each and at most
  -- 241 bytes for the last one.
  pub normalize_generated_path-ArePortable :
      (path : Bytes)
      → all is_byte path ≡ true
      → ArePortable (split b'/' (normalize_generated_path sha256_hexdigest path))
  unfolding normalize_generated_path
  normalize_generated_path-ArePortable path small =
      rw (split-normalized path small)
        (normalize_segments-ArePortable (split b'/' path) (all-split is_byte b'/' path small))
