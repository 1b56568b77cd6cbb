-- ===== src/Common.antt =====
-- The names that the other modules share: the libraries', passed on, and those of the children.
mod Tests
mod Text
mod Effects
mod Lists
mod Errors
mod Int
pub use Tests.*
pub use Lists.*
pub use Effects.*
unfoldable pub use Effects.{◌>>=◌, embed}
pub use Int.{ℤ, pos, negsuc}
unfoldable pub use Int.{to_int64, to_uint, decimal_int}
pub use Errors.*
pub use Text.Reading.{decimal_inj, decimal-minus, read_number, read_number-decimal}
pub use Text.{◌<>◌, codes, codes-append, plain, decimal-plain}
unfoldable pub use Text.{decimal}
pub use Prim.Native.Nat.{ℕ, zero, suc, ◌+◌, ◌-◌, ◌*◌, ◌/◌, ◌%◌, ◌^◌, ◌≤◌, ◌<◌}
pub use Prim.Native.String.{String}
pub use mathlib.Core.Path.{◌≡◌, refl, sym, ap, ◌∙◌}
pub use mathlib.Core.Logic.{◌≢◌, ◌↔◌, ◌⊎◌, inl, inr}
pub use mathlib.Core.Bool.{Bool, true, false, not, ◌&&◌, ◌||◌}
pub use mathlib.Core.Option.{Option, none, some}
pub use mathlib.Core.List.{List, [], ◌∷◌, ◌++◌, map, append-nil, append_assoc}
pub use native.Mathlib.Omega.{arith}
pub use text.Mathlib.Text.{◌==◌ as str_eq}
pub use text.Mathlib.TextEquality.{eq_iff}
