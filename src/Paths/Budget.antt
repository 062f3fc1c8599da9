-- ===== src/Paths/Budget.antt =====
-- The budgets of `generated_file_base`: what it returns fits, and all large budgets agree.
use protocyte.Common.{
  ℕ, ◌-◌, ◌≤◌, ◌≡◌, refl, sym, subst, ap, ◌∙◌, arith, true, false, not, ◌&&◌, ◌||◌, Option, none,
  some, [], ◌∷◌, ◌++◌, all, all-append, all-take, Bytes, codes, lacks, leb, ◌==◌, if◌then◌else◌,
  length, length-append, length-take, take, Bool-cases, inl, inr, &&-true, ok, ok-injective,
}
use protocyte.Paths.Segment.{
  digest_of, generated_file_suffix, normalize_generated_path, is_safe_byte,
}
use protocyte.Paths.Base.{
  min_hashed_generated_file_path_bytes, stable_budgeted_directory_bytes, has_byte, before_last,
  effective_budget, is_budgeted, is_too_small, flatten_slashes, fits_budgets, plain_base,
  hashed_base, generated_file_base, removesuffix,
}
use protocyte.Paths.Safe.{HexDigest, is_path_byte, length-digest_of, digest_of_safe}

has_byte-lacks : (sep : ℕ) (text : Bytes) → lacks sep text ≡ true → has_byte sep text ≡ false
unfolding has_byte
has_byte-lacks sep [] h = refl
has_byte-lacks sep (c ∷ text) h = ground (arith, has_byte-lacks sep text)

before_last-lacks : (sep : ℕ) (text : Bytes) → lacks sep text ≡ true → before_last sep text ≡ []
unfolding before_last
before_last-lacks sep [] h = refl
before_last-lacks sep (c ∷ text) h =
    rw (has_byte-lacks sep text (&&-true (not (c == sep)) (lacks sep text) h).1)

flatten_slashes-lacks : (text : Bytes) → lacks b'/' (flatten_slashes text) ≡ true
unfolding flatten_slashes
flatten_slashes-lacks [] = refl
flatten_slashes-lacks (c ∷ text) = elim (Bool-cases (c == b'/')) [
  | inl slash ↦ rw (slash, flatten_slashes-lacks text)
  | inr other ↦ rw (other, other, flatten_slashes-lacks text)
]

path_byte-lacks : (text : Bytes) → all is_path_byte text ≡ true → lacks b'/' text ≡ true
path_byte-lacks [] h = refl
path_byte-lacks (c ∷ text) h =
    let (here, rest) = &&-true (is_path_byte c) _ h in
    rw (byte_lem c here, path_byte-lacks text rest)
  where
    byte_lem : (c : ℕ) → is_path_byte c ≡ true → not (c == b'/') ≡ true
    byte_lem c p = unfold is_safe_byte in ground arith

-- No budget, or one of at least the stable size.
abbrev pub IsLarge : ℕ → Option ℕ → Type 0
IsLarge stable none = Unit
IsLarge stable (some budget) = stable ≤ budget

effective_budget-large :
    (stable : ℕ) (budget : Option ℕ)
    → IsLarge stable budget
    → effective_budget stable budget ≡ stable
unfolding effective_budget
effective_budget-large stable none h = refl
effective_budget-large stable (some budget) h = omega arith

large-not-small :
    (budget : Option ℕ)
    → IsLarge min_hashed_generated_file_path_bytes budget
    → is_too_small budget ≡ false
unfolding is_too_small
large-not-small none h = refl
large-not-small (some budget) h = ground arith

fits_tests :
    (path directory p d : ℕ)
    → (leb path p && (directory == 0 || leb directory d)) ≡ true
    → (path ≤ p) × (directory ≤ d)
fits_tests path directory p d h = ground arith

module _ (sha256_hexdigest : Bytes → Bytes) (hashlib : HexDigest sha256_hexdigest) where
  hashed_base-lacks :
      (budget : ℕ) (name : Bytes) → lacks b'/' (hashed_base sha256_hexdigest budget name) ≡ true
  unfolding hashed_base
  hashed_base-lacks budget name =
      let digest = digest_of sha256_hexdigest name in
      let readable =
        flatten_slashes
          (normalize_generated_path sha256_hexdigest (removesuffix (codes ".proto") name)) in
      let kept = budget - length generated_file_suffix - 1 - length digest in
      let behind = path_byte-lacks digest (digest_of_safe sha256_hexdigest hashlib name).0 in
      all-append (λ c. not (c == b'/')) (take kept readable ++ b'~' ∷ digest) (codes ".protocyte")
        (all-append (λ c. not (c == b'/')) (take kept readable) (b'~' ∷ digest)
          (all-take (λ c. not (c == b'/')) kept readable
            (flatten_slashes-lacks
              (normalize_generated_path sha256_hexdigest (removesuffix (codes ".proto") name))))
          (rw behind))
        refl

  -- The digest form takes all of its budget at most.
  length-hashed_base :
      (budget : ℕ) (name : Bytes)
      → min_hashed_generated_file_path_bytes ≤ budget
      → length (hashed_base sha256_hexdigest budget name ++ codes ".hpp") ≤ budget
  unfolding hashed_base
  length-hashed_base budget name room =
      let digest = digest_of sha256_hexdigest name in
      let readable =
        flatten_slashes
          (normalize_generated_path sha256_hexdigest (removesuffix (codes ".proto") name)) in
      let kept = budget - length generated_file_suffix - 1 - length digest in
      let front = take kept readable in
      omega (
        arith,
        length-digest_of sha256_hexdigest hashlib name,
        length-take {0} kept readable,
        length-append {0} front (b'~' ∷ digest),
        length-append {0} (front ++ b'~' ∷ digest) (codes ".protocyte"),
        length-append {0} (front ++ b'~' ∷ digest ++ codes ".protocyte") (codes ".hpp"),
      )

  effective_room :
      (max_path : Option ℕ)
      → is_too_small max_path ≡ false
      → min_hashed_generated_file_path_bytes
        ≤ effective_budget min_hashed_generated_file_path_bytes max_path
  unfolding is_too_small effective_budget
  effective_room none h = omega arith
  effective_room (some path) h = ground arith

  fits_parts :
      (p d : ℕ) (base : Bytes)
      → fits_budgets p d base ≡ true
      → (length (base ++ codes ".hpp") ≤ p) × (length (before_last b'/' base) ≤ d)
  unfolding fits_budgets
  fits_parts p d base h =
      fits_tests (length (base ++ codes ".hpp")) (length (before_last b'/' base)) p d h

  large_lem :
      (p d : Option ℕ) (name : Bytes)
      → is_budgeted p d ≡ true
      → IsLarge min_hashed_generated_file_path_bytes p
      → IsLarge stable_budgeted_directory_bytes d
      → generated_file_base sha256_hexdigest p d name ≡ (
          if fits_budgets min_hashed_generated_file_path_bytes stable_budgeted_directory_bytes
            (plain_base sha256_hexdigest name)
          then ok (plain_base sha256_hexdigest name)
          else ok (hashed_base sha256_hexdigest min_hashed_generated_file_path_bytes name))
  unfolding generated_file_base
  large_lem p d name given lp ld =
      rw (given, large-not-small p lp, effective_budget-large _ p lp, effective_budget-large _ d ld)

  -- With a digest of 64 hexadecimal digits and at least one budget given, the header's path and
  -- the directory of what `generated_file_base` returns are within the effective budgets, which
  -- are the given ones cut to 79 and 67 bytes.
  pub generated_file_base_fits :
      (max_path max_directory : Option ℕ) (name base : Bytes)
      → is_budgeted max_path max_directory ≡ true
      → generated_file_base sha256_hexdigest max_path max_directory name ≡ ok base
      → (length (base ++ codes ".hpp")
          ≤ effective_budget min_hashed_generated_file_path_bytes max_path)
        × (length (before_last b'/' base)
            ≤ effective_budget stable_budgeted_directory_bytes max_directory)
  unfolding generated_file_base
  generated_file_base_fits max_path max_directory name base budgeted h =
      let p = effective_budget min_hashed_generated_file_path_bytes max_path in
      let d = effective_budget stable_budgeted_directory_bytes max_directory in
      elim (Bool-cases (fits_budgets p d (plain_base sha256_hexdigest name))) [
        | inl fits ↦
            let same = ok-injective (rw (budgeted, fits) at h) in
            fits_parts p d base (ap (fits_budgets p d) (sym same) ∙ fits)
        | inr long ↦ elim (Bool-cases (is_too_small max_path)) [
          | inl small ↦ absurd (cc (rw (budgeted, long, small) at h))
          | inr room ↦
              let same = ok-injective (rw (budgeted, long, room) at h) in
              let enough = effective_room max_path room in
              subst (λ b. (length (b ++ codes ".hpp") ≤ p) × (length (before_last b'/' b) ≤ d)) same
                (
                  length-hashed_base p name enough,
                  rw (before_last-lacks b'/' _ (hashed_base-lacks p name)) (omega arith),
                )
        ]
      ]

  -- Any two pairs of budgets that are given and are at least 79 bytes for the path and 67 for the
  -- directory, or left out on one side, give one and the same base.
  pub generated_file_base_agrees :
      (p q d e : Option ℕ) (name : Bytes)
      → is_budgeted p d ≡ true
      → is_budgeted q e ≡ true
      → IsLarge min_hashed_generated_file_path_bytes p
      → IsLarge min_hashed_generated_file_path_bytes q
      → IsLarge stable_budgeted_directory_bytes d
      → IsLarge stable_budgeted_directory_bytes e
      → generated_file_base sha256_hexdigest p d name
        ≡ generated_file_base sha256_hexdigest q e name
  generated_file_base_agrees p q d e name given given' lp lq ld le =
      large_lem p d name given lp ld ∙ sym (large_lem q e name given' lq le)
