-- ===== src/Base.antt =====
-- The names that every module shares: the libraries', passed on, and those of the children
-- (tests, lists, byte strings, outcomes, maps).
pub mod Tests
pub mod Lists
pub mod Text
pub mod Errors
pub mod Dict
pub mod Int
pub use Tests.*
pub use Lists.*
pub use Errors.*
unfoldable pub use Text.*
pub use Prim.Native.Nat.{ℕ, zero, suc, ◌+◌, ◌-◌, ◌*◌, ◌≤◌, ◌<◌}
pub use Prim.Native.String.{String}
pub use mathlib.Core.Path.{◌≡◌, refl, sym, ap, subst, ◌∙◌}
pub use mathlib.Core.Logic.{◌≢◌, ◌↔◌, ◌⊎◌, inl, inr}
pub use mathlib.Core.Bool.{Bool, true, false, not, ◌&&◌, ◌||◌}
pub use mathlib.Core.Option.{Option, none, some}
pub use mathlib.Core.List.{List, [], ◌∷◌, ◌++◌, map}
pub use native.Mathlib.Omega.{arith}
