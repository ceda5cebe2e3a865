-- ===== src/Shared.antt =====
-- What the modules share: names of the libraries, passed on, and those of the children.
mod Logic
mod Numbers
mod Lists
mod Results
mod Text
mod Maps
mod Counting
mod Clock
unfoldable pub use Logic.*
unfoldable pub use Numbers.*
unfoldable pub use Lists.*
unfoldable pub use Results.*
unfoldable pub use Counting.*
unfoldable pub use Text.*
unfoldable pub use Maps.*
unfoldable pub use Clock.*
pub use Prim.Native.Nat.{ℕ, zero, suc, ◌+◌, ◌-◌, ◌*◌, ◌/◌, ◌%◌, ◌^◌, ◌≤◌, ◌<◌}
pub use Prim.Native.String.{String}
pub use mathlib.Core.Path.{◌≡◌, refl, sym, ap, ap₂, subst, ◌∙◌}
pub use mathlib.Core.Logic.{◌≢◌, ◌↔◌, ◌⊎◌, inl, inr}
pub use mathlib.Core.Bool.{Bool, true, false, not, ◌&&◌, ◌||◌}
pub use mathlib.Core.Option.{Option, none, some}
pub use mathlib.Core.List.{List, [], ◌∷◌, ◌++◌, map}
pub use native.Mathlib.Omega.{arith}
unfoldable pub use native.Mathlib.Decide.{ℕ_discrete}
