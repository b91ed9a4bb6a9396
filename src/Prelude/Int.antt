-- ===== src/Prelude/Int.antt =====
-- Signed integers over the native numbers.
use Prim.Native.Nat.{ℕ, ◌-◌, ◌≤◌}
use native.Mathlib.Omega.{arith}
use mesh_commander.Prelude.Tests.{leb, ltb, if◌then◌else◌}

-- `negsuc n` is -(n + 1).
pub data ℤ : Type 0 where
  pos : ℕ → ℤ
  negsuc : ℕ → ℤ

-- a - b, as an integer.
abbrev pub sub_ℕ : ℕ → ℕ → ℤ
sub_ℕ a b = if leb b a then pos (a - b) else negsuc (b - a - 1)

-- std::clamp(v, 0, hi) for 0 ≤ hi.
unfoldable pub clamp_from_zero : ℤ → ℕ → ℕ
clamp_from_zero (pos n) hi = if ltb hi n then hi else n
clamp_from_zero (negsuc n) hi = 0

pub clamp_from_zero-le : (v : ℤ) (hi : ℕ) → clamp_from_zero v hi ≤ hi
unfolding clamp_from_zero
clamp_from_zero-le (pos n) hi = ground arith
clamp_from_zero-le (negsuc n) hi = ground arith
