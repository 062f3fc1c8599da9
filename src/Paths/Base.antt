-- ===== src/Paths/Base.antt =====
-- `generated_file_base` of src/protocyte/paths.py. Budgets are natural numbers: the callers reject
-- negative ones (parameters.py).
use protocyte.Common.{
  ℕ, ◌+◌, ◌-◌, Bool, true, false, not, ◌&&◌, ◌||◌, Option, none, some, [], ◌∷◌, ◌++◌, map, Bytes,
  codes, text_eq, leb, ltb, ◌==◌, if◌then◌else◌, length, take, drop, min, Result, ok, err,
}
use protocyte.Paths.Segment.{
  generated_file_suffix, digest_bytes, digest_of, normalize_generated_path,
}

pub data PathError : Type 0 where
  path_budget_too_small : PathError

abbrev pub min_hashed_generated_file_path_bytes : ℕ
min_hashed_generated_file_path_bytes = 1 + digest_bytes + length generated_file_suffix

abbrev pub stable_budgeted_directory_bytes : ℕ
stable_budgeted_directory_bytes = min_hashed_generated_file_path_bytes - 12

-- text.removesuffix(suffix)
unfoldable pub removesuffix : Bytes → Bytes → Bytes
unfolding text_eq
removesuffix suffix text =
    let kept = length text - length suffix in
    if leb (length suffix) (length text) && text_eq (drop kept text) suffix
    then take kept text
    else text

-- text.rpartition(sep)[0], which is empty if there is no separator
unfoldable pub has_byte : ℕ → Bytes → Bool
has_byte sep [] = false
has_byte sep (c ∷ text) = c == sep || has_byte sep text

unfoldable pub before_last : ℕ → Bytes → Bytes
unfolding has_byte
before_last sep [] = []
before_last sep (c ∷ text) = if has_byte sep text then c ∷ before_last sep text else []

-- min(stable, budget), or the stable budget if none is given
unfoldable pub effective_budget : ℕ → Option ℕ → ℕ
effective_budget stable none = stable
effective_budget stable (some budget) = min stable budget

unfoldable pub is_budgeted : Option ℕ → Option ℕ → Bool
is_budgeted none none = false
is_budgeted none (some directory) = true
is_budgeted (some path) directory = true

unfoldable pub is_too_small : Option ℕ → Bool
is_too_small none = false
is_too_small (some path) = ltb path min_hashed_generated_file_path_bytes

-- text.replace("/", "_")
unfoldable pub flatten_slashes : Bytes → Bytes
flatten_slashes = map (λ c. if c == b'/' then b'_' else c)

unfoldable pub fits_budgets : ℕ → ℕ → Bytes → Bool
unfolding before_last
fits_budgets path_budget directory_budget base =
    leb (length (base ++ codes ".hpp")) path_budget
    && (length (before_last b'/' base) == 0
        || leb (length (before_last b'/' base)) directory_budget)

module _ (sha256_hexdigest : Bytes → Bytes) where
  unfoldable pub plain_base : Bytes → Bytes
  unfolding normalize_generated_path removesuffix
  plain_base proto_name =
      normalize_generated_path sha256_hexdigest (removesuffix (codes ".proto") proto_name)
      ++ codes ".protocyte"

  unfoldable pub hashed_base : ℕ → Bytes → Bytes
  unfolding normalize_generated_path removesuffix flatten_slashes digest_of
  hashed_base path_budget proto_name =
      let digest = digest_of sha256_hexdigest proto_name in
      let readable =
        flatten_slashes
          (normalize_generated_path sha256_hexdigest (removesuffix (codes ".proto") proto_name)) in
      take (path_budget - length generated_file_suffix - 1 - length digest) readable
      ++ b'~' ∷ digest
      ++ codes ".protocyte"

  unfoldable pub generated_file_base : Option ℕ → Option ℕ → Bytes → Result PathError Bytes
  unfolding plain_base hashed_base is_budgeted effective_budget fits_budgets is_too_small
  generated_file_base max_path max_directory proto_name =
      let base = plain_base proto_name in
      let path_budget = effective_budget min_hashed_generated_file_path_bytes max_path in
      let directory_budget = effective_budget stable_budgeted_directory_bytes max_directory in
      if not (is_budgeted max_path max_directory)
      then ok base
      else if fits_budgets path_budget directory_budget base
      then ok base
      else if is_too_small max_path
      then err PathError.path_budget_too_small
      else ok (hashed_base path_budget proto_name)
