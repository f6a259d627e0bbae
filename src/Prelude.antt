-- ===== src/Prelude.antt =====
-- Names that the whole development shares: the libraries', passed on, and those of the children.
mod Basics
mod Lists
mod Strings
pub mod HashMap
pub mod Split
pub mod Trim
pub use Basics.*
pub use Lists.*
pub use Prim.Native.Nat.{ℕ, zero, suc, ◌+◌, ◌-◌, ◌*◌, ◌/◌, ◌%◌, ◌≤◌, ◌<◌}
pub use Prim.Native.String.{String}
pub use mathlib.Core.Path.{◌≡◌, refl, sym, ap, ◌∙◌}
pub use mathlib.Core.Logic.{◌≢◌, ◌↔◌, ◌⊎◌, inl, inr}
pub use mathlib.Core.Bool.{Bool, true, false, not, ◌&&◌, ◌||◌, and-eq-true_iff}
pub use mathlib.Core.Option.{Option, none, some}
pub use mathlib.Core.List.{List, [], ◌∷◌, ◌++◌, map, append_assoc, append-nil}
pub use native.Mathlib.Omega.{arith}
unfoldable pub use Strings.{
  Text, text, text_eq, starts_with, ends_with, is_empty, trim_end_matches, trim_start_matches,
  slash, member, count,
}
pub use Strings.{text_eq_iff, text_eq_refl, keep_head}
