-- ===== src/Base.antt =====
-- The names that the other modules share: the libraries', passed on, and those of its children
-- (Boolean tests, lists by native index, bits and shifts, signed integers, results).
mod Tests
mod Lists
mod Bits
mod Order
mod Int
mod Update
mod Times
pub use Tests.*
pub use Lists.*
pub use Int.*
pub use Update.*
unfoldable pub use Times.*
unfoldable pub use Bits.*
pub use Order.*
pub use Prim.Native.Nat.{ℕ, zero, suc, ◌+◌, ◌-◌, ◌*◌, ◌/◌, ◌%◌, ◌^◌, ◌≤◌, ◌<◌, min, max}
pub use Prim.Native.Nat.{bit_and, bit_or, bit_xor}
pub use mathlib.Core.Path.{◌≡◌, refl, sym, ap, ap₂, ◌∙◌, fun_ext, subst}
pub use mathlib.Core.Logic.{◌≢◌, ◌↔◌, ◌⊎◌, inl, inr}
pub use mathlib.Core.Bool.{Bool, true, false, not, ◌&&◌, ◌||◌}
pub use mathlib.Core.Option.{Option, none, some}
pub use mathlib.Core.List.{List, [], ◌∷◌, ◌++◌, map}
pub use native.Mathlib.Omega.{arith}
unfoldable pub use native.Mathlib.Decide.{dec_lt, ℕ_discrete}
