-- ===== src/Common.antt =====
-- The names that every other module shares: those of the libraries, passed on, and those of the
-- children, which model what the program takes from Rust's standard library.
mod Tests
mod Lists
mod Equality
mod Time
pub mod HashMap
pub mod Outcome
pub mod Result
mod Words
unfoldable pub use Tests.*
pub use Lists.*
unfoldable pub use Equality.*
pub use Time.*
unfoldable pub use Words.*
pub use Prim.Native.Nat.{ℕ, zero, suc, ◌+◌, ◌-◌, ◌*◌, ◌/◌, ◌%◌, ◌^◌, ◌≤◌, ◌<◌}
pub use mathlib.Core.Path.{◌≡◌, refl, sym, ap, ◌∙◌}
pub use mathlib.Core.Logic.{◌≢◌, ◌↔◌, ◌⊎◌, inl, inr}
pub use mathlib.Core.Bool.{Bool, true, false, not, ◌&&◌, ◌||◌}
pub use mathlib.Core.Option.{Option, none, some}
pub use mathlib.Core.List.{List, [], ◌∷◌, ◌++◌, map}
pub use native.Mathlib.Omega.{arith}
