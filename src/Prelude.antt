-- ===== src/Prelude.antt =====
-- The names that the other modules share: numbers, texts, errors, and the libraries'.
mod Tests
mod Strings
mod Errors
mod Int
mod Numbers
mod Every
pub mod Bits
pub mod Map
pub use Tests.*
unfoldable pub use Strings.*
pub use Errors.*
unfoldable pub use Every.*
unfoldable pub use Numbers.*
pub use Int.*
pub use Prim.Native.Nat.{ℕ, zero, suc, ◌+◌, ◌-◌, ◌*◌, ◌/◌, ◌%◌, ◌^◌, ◌≤◌, ◌<◌}
pub use Prim.Native.String.{String}
pub use mathlib.Core.Path.{◌≡◌, refl, sym, ap, ◌∙◌}
pub use mathlib.Core.Logic.{◌≢◌, ◌↔◌, ◌⊎◌, inl, inr}
pub use mathlib.Core.Bool.{Bool, true, false, not, ◌&&◌, ◌||◌}
pub use mathlib.Core.Option.{Option, none, some}
pub use mathlib.Core.List.{List, [], ◌∷◌, ◌++◌, map, reverse}
pub use native.Mathlib.Omega.{arith}
