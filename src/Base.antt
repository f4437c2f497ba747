-- ===== src/Base.antt =====
-- The names that the other modules share: those of the libraries, passed on, and those of the
-- children.
pub mod Tests
pub mod Exec
pub mod Dict
pub mod Text
pub mod Int
pub mod Sort
pub mod Lists
pub mod Versions
pub mod Names
pub use Prim.Native.Nat.{ℕ, zero, suc, ◌+◌, ◌-◌, ◌*◌, ◌/◌, ◌%◌, ◌^◌, ◌≤◌, ◌<◌, min, max}
pub use mathlib.Core.Path.{◌≡◌, refl, sym, ap, ◌∙◌}
pub use mathlib.Core.Logic.{◌≢◌, ◌↔◌, ◌⊎◌, inl, inr}
pub use mathlib.Core.Bool.{Bool, true, false, not, ◌&&◌, ◌||◌}
pub use mathlib.Core.Option.{Option, none, some}
pub use mathlib.Core.List.{List, [], ◌∷◌, ◌++◌, map}
pub use native.Mathlib.Omega.{arith}
pub use Tests.{ltb, leb, ◌==◌, ==_iff, if◌then◌else◌, Bool-cases, Option-cases, Eq, nat_eq, pair_eq}
pub use Tests.{option_eq, opt_beq, is_some, is_none, clash}
pub use Exec.*
pub use Lists.*
