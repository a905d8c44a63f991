-- ===== src/Prelude.antt =====
-- Names shared by the modules of the development: the libraries', passed on, and those of the
-- children. No code of the repository is modelled here.
mod Tests
mod Lists
mod Counting
mod Integers
mod Members
mod Permuting
unfoldable pub use Tests.*
unfoldable pub use Lists.*
pub use Counting.*
pub use Integers.*
pub use Permuting.*
pub use Members.*
pub use Prim.Native.Nat.{ℕ, zero, suc, ◌+◌, ◌-◌, ◌*◌, ◌≤◌, ◌<◌}
pub use Prim.Native.String.{String}
pub use mathlib.Core.Path.{◌≡◌, refl, sym, ap, ◌∙◌, subst}
pub use mathlib.Core.Logic.{◌≢◌, ◌↔◌, ◌⊎◌, inl, inr}
pub use mathlib.Core.Bool.{Bool, true, false, not, ◌&&◌, ◌||◌}
pub use mathlib.Core.Option.{Option, none, some}
pub use mathlib.Core.List.{List, [], ◌∷◌, ◌++◌, map}
pub use native.Mathlib.Omega.{arith}
