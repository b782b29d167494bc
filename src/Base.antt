-- ===== src/Base.antt =====
-- What the components share: names of the libraries, tests, lists, orders, dictionaries and texts.
mod Tests
mod Lists
mod Orders
mod Sorting
mod Sorted
mod Dicts
mod Counting
mod Texts
mod Encodings
unfoldable pub use Tests.*
unfoldable pub use Lists.*
unfoldable pub use Orders.*
unfoldable pub use Sorting.*
unfoldable pub use Sorted.*
unfoldable pub use Dicts.*
unfoldable pub use Counting.*
unfoldable pub use Texts.*
unfoldable pub use Encodings.*
pub use Prim.Native.Nat.{ℕ, zero, suc, ◌+◌, ◌-◌, ◌≤◌, ◌<◌}
pub use mathlib.Core.Path.{◌≡◌, refl, sym, ap, ap₂, subst, ◌∙◌}
pub use mathlib.Core.Logic.{◌≢◌, ◌↔◌, ◌⊎◌, inl, inr}
pub use mathlib.Core.Bool.{Bool, true, false, not, ◌&&◌, ◌||◌}
pub use mathlib.Core.Option.{Option, none, some}
pub use mathlib.Core.List.{List, [], ◌∷◌, ◌++◌, map, append-nil, append_assoc, map-append}
pub use native.Mathlib.Omega.{arith}
