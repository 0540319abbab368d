-- ===== src/Base.antt =====
-- The names that the other modules share: the libraries', passed on, and those of the children.
mod Tests
mod Results
mod Strings
mod Maps
mod Paths
mod Sorting
mod Distinct
mod Decimal
mod Names
mod Tidy
mod Listings
mod Descent
pub mod Containment
pub mod Normal
pub mod Cleaned
pub mod Within
pub mod Related
pub use Prim.Native.Nat.{ℕ, zero, suc, ◌+◌, ◌-◌, ◌*◌, ◌/◌, ◌%◌, ◌^◌, ◌≤◌, ◌<◌, max}
pub use mathlib.Core.Path.{◌≡◌, refl, sym, ap, ◌∙◌}
pub use mathlib.Core.Logic.{◌≢◌, ◌↔◌, ◌⊎◌, inl, inr}
pub use mathlib.Core.Bool.{Bool, true, false, not, ◌&&◌, ◌||◌}
pub use mathlib.Core.Option.{Option, none, some}
pub use mathlib.Core.List.{List, [], ◌∷◌, ◌++◌, map, reverse}
pub use native.Mathlib.Omega.{arith}
unfoldable pub use Tests.*
unfoldable pub use Results.*
unfoldable pub use Strings.*
unfoldable pub use Maps.*
unfoldable pub use Paths.*
unfoldable pub use Sorting.*
unfoldable pub use Distinct.*
unfoldable pub use Decimal.*
unfoldable pub use Names.*
unfoldable pub use Tidy.*
unfoldable pub use Listings.*
unfoldable pub use Descent.*
