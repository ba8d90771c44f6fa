-- ===== src/Prelude.antt =====
-- The names that the other modules share: the libraries', passed on, and those of the modules below.
mod Tests
mod Lists
mod Texts
mod Int
mod Results
mod Maps
mod Decimal
pub use Tests.*
pub use Lists.*
pub use Texts.*
pub use Int.*
pub use Results.*
pub use Maps.*
pub use Decimal.*
unfoldable pub use Decimal.{decimal, digits_from, parse_u32}
unfoldable pub use Maps.{bytes_ltb, lookup, replace, place, insert}
unfoldable pub use Int.{◌+ℤ◌, ◌-ℤ◌, wrap_i32}
unfoldable pub use Texts.{bytes_eq, strip_prefix}
pub use Prim.Native.Nat.{ℕ, zero, suc, ◌+◌, ◌-◌, ◌*◌, ◌/◌, ◌%◌, ◌^◌, ◌≤◌, ◌<◌}
pub use mathlib.Core.Path.{◌≡◌, refl, sym, ap, ◌∙◌}
pub use mathlib.Core.Logic.{◌≢◌, ◌↔◌, ◌⊎◌, inl, inr}
pub use mathlib.Core.Bool.{Bool, true, false, not, ◌&&◌, ◌||◌}
pub use mathlib.Core.Option.{Option, none, some}
pub use mathlib.Core.List.{List, [], ◌∷◌, ◌++◌, map}
pub use native.Mathlib.Omega.{arith}
