-- ===== src/Prelude/Tables.antt =====
-- Facts about every number below a bound, checked by evaluation.
use Prim.Native.Nat.{ℕ, zero, suc, ◌+◌, ◌≤◌, ◌<◌}
use mathlib.Core.Path.{◌≡◌, refl}
use mathlib.Core.Bool.{Bool, true, false, not, ◌&&◌}
use native.Mathlib.Omega.{arith}

-- The `count` numbers from `start` on.
unfoldable pub all_from : (ℕ → Bool) → ℕ → ℕ → Bool
all_from test start zero = true
all_from test start (suc count) = test start && all_from test (start + 1) count

unfoldable pub all_below : ℕ → (ℕ → Bool) → Bool
unfolding all_from
all_below bound test = all_from test 0 bound

in_table :
    (test : ℕ → Bool) (start count v : ℕ)
    → all_from test start count ≡ true
    → start ≤ v
    → v < start + count
    → test v ≡ true
unfolding all_from
in_table test start zero v h low high = absurd (omega arith)
in_table test start (suc count) v h low high = ground (arith, in_table test (start + 1) count v)

pub all_below_sound :
    (bound : ℕ) (test : ℕ → Bool) (v : ℕ) → all_below bound test ≡ true → v < bound → test v ≡ true
unfolding all_below
all_below_sound bound test v h l = in_table test 0 bound v h (omega arith) (omega arith)

-- Two tests that give the same answer.
abbrev pub same : Bool → Bool → Bool
same true b = b
same false b = not b

pub same_eq : (a b : Bool) → same a b ≡ true → a ≡ b
same_eq true true h = refl
same_eq false false h = refl
same_eq true false h = cc
same_eq false true h = cc
