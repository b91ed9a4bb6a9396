-- ===== src/Prelude.antt =====
-- The names that the other modules share: the libraries', passed on, and those of three children.
mod Tests
mod Lists
mod Int
mod Tables
mod Bits
pub use Tests.*
pub use Lists.*
pub use Tables.{all_below_sound, same, same_eq}
unfoldable pub use Tables.{all_below, all_from}
pub use Bits.{
  bit_or_high_left, bit_and_four, bit_and_mask, bit_and_high, bit_or_high, bit_and_low, bit_or_low,
  pow2_pos, pow2_add,
}
pub use Int.{ℤ, pos, negsuc, sub_ℕ, clamp_from_zero-le}
unfoldable pub use Int.{clamp_from_zero}
pub use Prim.Native.Nat.{ℕ, zero, suc, ◌+◌, ◌-◌, ◌*◌, ◌/◌, ◌%◌, ◌^◌, ◌≤◌, ◌<◌, min, bit_and, bit_or}
pub use mathlib.Core.Path.{◌≡◌, refl, sym, ap, ap₂, ◌∙◌}
pub use mathlib.Core.Logic.{◌≢◌, ◌↔◌, ◌⊎◌, inl, inr}
pub use mathlib.Core.Bool.{Bool, true, false, not, ◌&&◌, ◌||◌}
pub use mathlib.Core.Option.{Option, none, some}
pub use mathlib.Core.List.{List, [], ◌∷◌, ◌++◌, map}
pub use native.Mathlib.Omega.{arith}
