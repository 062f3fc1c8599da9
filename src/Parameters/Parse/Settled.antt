-- ===== src/Parameters/Parse/Settled.antt =====
-- The options that `parse_parameter` returns.
use protocyte.Common.{
  ◌≡◌, refl, sym, Bool, true, false, ◌||◌, Option, ok, >>=-eq-ok, >>-eq-ok, ok-injective, codes,
  text_eq, text_eq_refl, Bool-cases, inl, inr, if◌then◌else◌, subst,
}
use protocyte.Parameters.Text.{Text}
use protocyte.Parameters.Prefix.{
  path_budget_not_integer, empty_path_budget, directory_budget_not_integer, empty_directory_budget,
}
use protocyte.Parameters.Options.{
  Numbers, Options, has_formatter, checked_timeout, check_texts, check_budgets, with_timeout,
  post_init, formatting_required,
}
use protocyte.Parameters.Options.Checked.{post_init-again, passed}
use protocyte.Parameters.Transport.{decode_transport_parameter}
use protocyte.Parameters.Parse.{
  Values, get_value, get_or, runtime_of, runtime_prefix_of, include_of, timeout_of, budget_of,
  format_of, options_of, values_of, parse_parameter,
}

-- A formatter that was given, by its path or by its configuration, makes the mode "required".
format_of-required :
    (format : Text) (clang_format config : Option Text) {mode : Text}
    → format_of format clang_format config ≡ ok mode
    → has_formatter clang_format config ≡ true
    → mode ≡ codes "required"
unfolding format_of
format_of-required format clang_format config returned given =
    let (passes, same) =
      >>-eq-ok _ (ok (if has_formatter clang_format config then codes "required" else format))
        returned in
    sym (ok-injective (rw given at same))

||-none : (b : Bool) → (b || false) ≡ b
||-none true = refl
||-none false = refl

module _ (n : Numbers) where
  options_of-required :
      (values : Values) {o : Options n}
      → options_of n values ≡ ok o
      → has_formatter o.clang_format o.clang_format_config ≡ true
      → o.format_mode ≡ codes "required"
  unfolding options_of
  options_of-required values returned given =
      let (runtime, _, after_runtime) = >>=-eq-ok (runtime_of values) _ returned in
      let (prefix, _, after_prefix) =
        >>=-eq-ok (runtime_prefix_of (get_or (codes "comments") (codes "on") values) runtime.1) _
          after_runtime in
      let (include, _, after_include) =
        >>=-eq-ok (include_of (get_value (codes "include_prefix") values)) _ after_prefix in
      let clang = get_value (codes "clang_format") values in
      let config = get_value (codes "clang_format_config") values in
      let (mode, settled, after_mode) =
        >>=-eq-ok (format_of (get_or (codes "format") (codes "auto") values) clang config) _
          after_include in
      let (timeout, _, after_timeout) =
        >>=-eq-ok (timeout_of n (get_value (codes "formatter_timeout_seconds") values)) _
          after_mode in
      let (path_budget, _, after_path) =
        >>=-eq-ok
          (budget_of n path_budget_not_integer empty_path_budget
            (get_value (codes "_protocyte_generated_path_max_bytes") values))
          _ after_timeout in
      let (directory_budget, _, same) =
        >>=-eq-ok
          (budget_of n directory_budget_not_integer empty_directory_budget
            (get_value (codes "_protocyte_generated_directory_max_bytes") values))
          _ after_path in
      let built = ok-injective same in
      subst
        (λ c.
          has_formatter c.clang_format c.clang_format_config ≡ true
          → c.format_mode ≡ codes "required")
        built
        (format_of-required (get_or (codes "format") (codes "auto") values) clang config settled)
        given

  -- The constructor changes neither the mode nor the formatter's path and configuration.
  post_init-required :
      (o : Options n) {checked : Options n}
      → post_init n o ≡ ok checked
      → (has_formatter o.clang_format o.clang_format_config ≡ true
          → o.format_mode ≡ codes "required")
      → has_formatter checked.clang_format checked.clang_format_config ≡ true
      → checked.format_mode ≡ codes "required"
  unfolding post_init
  post_init-required o returned required given =
      let (t, texts, time, budgets, same) =
        passed (check_texts n o) (checked_timeout n o.formatter_timeout_seconds) (check_budgets n o)
          (with_timeout n o) returned in
      subst
        (λ c.
          has_formatter c.clang_format c.clang_format_config ≡ true
          → c.format_mode ≡ codes "required")
        same required given

  settled_mode :
      (o : Options n)
      → (has_formatter o.clang_format o.clang_format_config ≡ true
          → o.format_mode ≡ codes "required")
      → formatting_required n o ≡ text_eq o.format_mode (codes "required")
  unfolding formatting_required
  settled_mode o required = elim (Bool-cases (has_formatter o.clang_format o.clang_format_config)) [
    | inl given ↦ rw (given, required given, text_eq_refl (codes "required")) refl
    | inr free ↦ rw free (||-none (text_eq o.format_mode (codes "required")))
  ]

  -- Options on which a formatter never runs against its mode: the constructor accepts them again
  -- unchanged, and formatting is required exactly if the mode says so.
  pub record AreSettled (o : Options n) : Type 0 where
    pub accepted : post_init n o ≡ ok o
    pub mode_tells : formatting_required n o ≡ text_eq o.format_mode (codes "required")

  -- The options that `parse_parameter` returns are accepted by the checks of GeneratorOptions again,
  -- unchanged, and the property formatting_required holds of them exactly if their format mode is
  -- "required": a formatter given by its path or configuration has set that mode.
  pub parse_parameter-AreSettled :
      (parameter : Text) {o : Options n} → parse_parameter n parameter ≡ ok o → AreSettled o
  unfolding parse_parameter
  parse_parameter-AreSettled parameter {o} returned =
      let (decoded, _, after_decoded) =
        >>=-eq-ok (decode_transport_parameter parameter) _ returned in
      let (values, _, after_values) = >>=-eq-ok (values_of decoded) _ after_decoded in
      let (options, made, checked) = >>=-eq-ok (options_of n values) _ after_values in
      let required = post_init-required options checked (options_of-required values made) in
      record { accepted = post_init-again n options checked; mode_tells = settled_mode o required }
