-- ===== src/Common.antt =====
-- The names that the other modules share: the libraries', passed on, and those of the children.
mod Tests
mod Lists
mod Text
mod Split
mod Outcome
mod Decimal
mod Int
mod Bits
pub use Tests.*
pub use Lists.*
pub use Text.*
pub use Split.*
pub use Outcome.{
  Result, ok, err, ◌>>=◌, ◌>>◌, >>=-eq-ok, ok-injective, raise_if, >>-eq-ok, raise_if-passed,
  raise_if-ok,
}
pub use Int.*
unfoldable pub use Bits.{bit_length, bit_length_within}
pub use Bits.{bit_length-bounds, pow-add}
unfoldable pub use Decimal.{decimal}
unfoldable pub use Text.{text_eq, starts_with, ends_with}
unfoldable pub use Split.{split, join, before, after}
pub use Prim.Native.Nat.{ℕ, zero, suc, ◌+◌, ◌-◌, ◌*◌, ◌/◌, ◌%◌, ◌^◌, ◌≤◌, ◌<◌, min, max}
pub use mathlib.Core.Path.{◌≡◌, refl, sym, ap, ap₂, subst, ◌∙◌}
pub use mathlib.Core.Logic.{◌≢◌, ◌↔◌, ◌⊎◌, inl, inr}
pub use mathlib.Core.Bool.{Bool, true, false, not, ◌&&◌, ◌||◌}
pub use mathlib.Core.Option.{Option, none, some}
pub use mathlib.Core.List.{List, [], ◌∷◌, ◌++◌, map, append-nil, append_assoc}
pub use native.Mathlib.Omega.{arith}
