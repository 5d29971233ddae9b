-- ===== src/Prelude.antt =====
-- The names that the modules of this library share: those of the libraries, passed on, and those
-- of the children (tests and equality, Python's texts, exceptions with state, dictionaries).
mod Tests
mod Text
mod Effects
pub mod Dict
pub mod Entries
pub mod Sorting
pub mod Sets
pub mod Comparing
pub mod Outcomes
pub mod Checks
unfoldable pub use Tests.*
unfoldable pub use Text.*
pub use Effects.*
pub use Prim.Native.Nat.{ℕ, zero, suc, ◌+◌, ◌-◌, ◌*◌, ◌≤◌, ◌<◌}
pub use Prim.Native.String.{String}
pub use mathlib.Core.Path.{◌≡◌, refl, sym, ap, ◌∙◌}
pub use mathlib.Core.Logic.{◌≢◌, ◌↔◌, ◌⊎◌, inl, inr}
pub use mathlib.Core.Bool.{Bool, true, false, not, ◌&&◌, ◌||◌}
pub use mathlib.Core.Option.{Option, none, some}
pub use mathlib.Core.List.{List, [], ◌∷◌, ◌++◌, map}
pub use native.Mathlib.Omega.{arith}
