-- ===== src/Base.antt =====
-- The names that every module of the development shares: those of the libraries, passed on,
-- and the helpers of the modules below (Boolean tests, key equality, lists, text, dictionaries).
pub mod Bools
pub mod Keys
pub mod Lists
pub mod Strings
pub mod Ids
pub mod Dict
pub use Prim.Native.Nat.{ℕ, zero, suc, ◌+◌, ◌-◌, ◌*◌, ◌/◌, ◌%◌, ◌^◌, ◌≤◌, ◌<◌, min, max}
pub use mathlib.Core.Path.{◌≡◌, refl, sym, ap, ◌∙◌}
pub use mathlib.Core.Logic.{◌≢◌, ◌↔◌, ◌⊎◌, inl, inr}
pub use mathlib.Core.Bool.{Bool, true, false, not, ◌&&◌, ◌||◌}
pub use mathlib.Core.Option.{Option, none, some}
pub use mathlib.Core.List.{List, [], ◌∷◌, ◌++◌, map}
pub use native.Mathlib.Omega.{arith}
pub use Bools.*
pub use Keys.{Eq, Text, str_eq_iff, str_eq_refl, nat_Eq, text_Eq, pair_Eq}
unfoldable pub use Keys.{str_eq}
