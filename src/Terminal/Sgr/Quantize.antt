-- ===== src/Terminal/Sgr/Quantize.antt =====
-- quantizeRgbTo256 of terminal/src/vt100parser.cpp against the colour cube that the palette of
-- terminal/src/terminalscreen.cpp draws.
use mesh_commander.Prelude.{
  ℕ, zero, suc, ◌+◌, ◌-◌, ◌≤◌, ◌<◌, ◌≡◌, ◌⊎◌, inl, inr, [], ◌∷◌, get_or, arith,
}
use mesh_commander.Terminal.Sgr.{cube_step, quantize_rgb_to_256}

-- `kSteps`, the levels of one channel.
abbrev pub cube_level : ℕ → ℕ
cube_level k = get_or (0 ∷ 95 ∷ 135 ∷ 175 ∷ 215 ∷ 255 ∷ []) k 0

abbrev pub distance : ℕ → ℕ → ℕ
distance a b = (a - b) + (b - a)

cube_step-le : (v : ℕ) → cube_step v ≤ 5
unfolding cube_step
cube_step-le v = ground arith

-- The range of values that each level stands for.
cube_step_cases :
    (v : ℕ)
    → ((cube_step v ≡ 0) × (v < 48))
      ⊎ ((cube_step v ≡ 1) × (48 ≤ v) × (v < 115))
      ⊎ ((cube_step v ≡ 2) × (115 ≤ v) × (v < 155))
      ⊎ ((cube_step v ≡ 3) × (155 ≤ v) × (v < 195))
      ⊎ ((cube_step v ≡ 4) × (195 ≤ v) × (v < 235))
      ⊎ ((cube_step v ≡ 5) × (235 ≤ v))
unfolding cube_step
cube_step_cases v = ground arith

-- `a` is no further from `v` than any level is.
abbrev Nearest : ℕ → ℕ → Type 0
Nearest v a =
    (distance v a ≤ distance v 0)
    × (distance v a ≤ distance v 95)
    × (distance v a ≤ distance v 135)
    × (distance v a ≤ distance v 175)
    × (distance v a ≤ distance v 215)
    × (distance v a ≤ distance v 255)

cube_step-Nearest : (v : ℕ) → Nearest v (cube_level (cube_step v))
cube_step-Nearest v = elim (cube_step_cases v) [
  | inl h ↦ rw h.0 (omega arith)
  | inr (inl h) ↦ rw h.0 (omega arith)
  | inr (inr (inl h)) ↦ rw h.0 (omega arith)
  | inr (inr (inr (inl h))) ↦ rw h.0 (omega arith)
  | inr (inr (inr (inr (inl h)))) ↦ rw h.0 (omega arith)
  | inr (inr (inr (inr (inr h)))) ↦ rw h.0 (omega arith)
]

Nearest-level : (v a k : ℕ) → k ≤ 5 → Nearest v a → distance v a ≤ distance v (cube_level k)
Nearest-level v a zero h n = n.0
Nearest-level v a (suc zero) h n = n.1
Nearest-level v a (suc (suc zero)) h n = n.2
Nearest-level v a (suc (suc (suc zero))) h n = n.3
Nearest-level v a (suc (suc (suc (suc zero)))) h n = n.4
Nearest-level v a (suc (suc (suc (suc (suc zero))))) h n = n.5
Nearest-level v a (suc (suc (suc (suc (suc (suc k)))))) h n = absurd (omega arith)

-- The step that a channel value is given has a level as near to the value as any of the six
-- levels of the cube.
pub cube_step_nearest :
    (v k : ℕ) → k ≤ 5 → distance v (cube_level (cube_step v)) ≤ distance v (cube_level k)
cube_step_nearest v k h = Nearest-level v _ k h (cube_step-Nearest v)

-- A quantized colour is an index of the colour cube, from 16 to 231, whatever the channel
-- values.
pub quantize_bounds :
    (r g b : ℕ) → (16 ≤ quantize_rgb_to_256 r g b) × (quantize_rgb_to_256 r g b ≤ 231)
unfolding quantize_rgb_to_256
quantize_bounds r g b = omega (arith, cube_step-le r, cube_step-le g, cube_step-le b)
