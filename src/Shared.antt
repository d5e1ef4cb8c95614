-- ===== src/Shared.antt =====
-- Names that the modules share: the libraries', passed on, and those of the modules below.
mod Tests
mod Lists
mod Int
mod Strings
mod Maps
mod Hex
mod Base64
pub use Tests.*
unfoldable pub use Lists.*
pub use Int.*
unfoldable pub use Strings.*
unfoldable pub use Maps.*
unfoldable pub use Hex.*
unfoldable pub use Base64.*
pub use Prim.Native.Nat.{ℕ, zero, suc, ◌+◌, ◌-◌, ◌*◌, ◌/◌, ◌%◌, ◌^◌, ◌≤◌, ◌<◌, min, max}
pub use Prim.Native.String.{String}
pub use mathlib.Core.Path.{◌≡◌, refl, sym, ap, ◌∙◌, subst}
pub use mathlib.Core.Logic.{◌≢◌, ◌↔◌, ◌⊎◌, inl, inr}
pub use mathlib.Core.Bool.{Bool, true, false, not, ◌&&◌, ◌||◌}
pub use mathlib.Core.Option.{Option, none, some}
pub use mathlib.Core.List.{List, [], ◌∷◌, ◌++◌, map, reverse, append_assoc, append-nil}
pub use native.Mathlib.Omega.{arith}
