-- ===== src/Prelude/Bits.antt =====
-- Bit operations at variables: the step on the lowest digit, masks, and disjoint fields.
use Prim.Native.Nat.{digits, bit_and-bitwise, bit_or-bitwise, bit_and, bit_or, max}
use Prim.Native.Nat.{ℕ, zero, suc, ◌+◌, ◌-◌, ◌*◌, ◌/◌, ◌%◌, ◌^◌, ◌≤◌, ◌<◌, min}
use mathlib.Core.Path.{◌≡◌, refl, sym, ap, ◌∙◌}
use native.Mathlib.Nat.{pow-suc, mod-eq_of_lt, mod-lt, mul-add-mod_self_left, div-add-mod}
use native.Mathlib.Omega.{arith}

-- A bitwise operation is `digits` on its first operand as fuel; more fuel changes nothing.
module _ (rest : ℕ → ℕ) (op : ℕ → ℕ → ℕ) where
  digits-zero : (fuel y : ℕ) → digits rest op fuel 0 y ≡ rest y
  digits-zero zero y = refl
  digits-zero (suc fuel) y = refl

  digits_enough :
      (x y fuel more : ℕ)
      → x < suc fuel
      → x < suc more
      → digits rest op fuel x y ≡ digits rest op more x y
  digits_enough zero y fuel more h k = digits-zero fuel y ∙ sym (digits-zero more y)
  digits_enough (suc x) y zero more h k = absurd (omega arith)
  digits_enough (suc x) y (suc fuel) zero h k = absurd (omega arith)
  digits_enough (suc x) y (suc fuel) (suc more) h k =
      let tail = digits_enough (suc x / 2) (y / 2) fuel more (omega arith) (omega arith) in
      ap (λ (high : ℕ). high * 2 + op (suc x % 2) (y % 2)) tail

  -- The lowest digits apart.
  digits_low :
      (x y : ℕ)
      → digits rest op (suc x) (suc x) y
        ≡ digits rest op (suc x / 2) (suc x / 2) (y / 2) * 2 + op (suc x % 2) (y % 2)
  digits_low x y =
      ap (λ (high : ℕ). high * 2 + op (suc x % 2) (y % 2))
        (digits_enough (suc x / 2) (y / 2) x (suc x / 2) (omega arith) (omega arith))

pub bit_and_low : (a b : ℕ) → bit_and a b ≡ bit_and (a / 2) (b / 2) * 2 + min (a % 2) (b % 2)
bit_and_low zero b = omega (arith, bit_and-bitwise 0 b, bit_and-bitwise 0 (b / 2))
bit_and_low (suc a) b =
    let lowest = digits_low (λ y. 0) min a b in
    bit_and-bitwise (suc a) b
    ∙ lowest
    ∙ ap (λ (high : ℕ). high * 2 + min (suc a % 2) (b % 2))
        (sym (bit_and-bitwise (suc a / 2) (b / 2)))

pub bit_or_low : (a b : ℕ) → bit_or a b ≡ bit_or (a / 2) (b / 2) * 2 + max (a % 2) (b % 2)
bit_or_low zero b = omega (arith, bit_or-bitwise 0 b, bit_or-bitwise 0 (b / 2))
bit_or_low (suc a) b =
    let lowest = digits_low (λ y. y) max a b in
    bit_or-bitwise (suc a) b
    ∙ lowest
    ∙ ap (λ (high : ℕ). high * 2 + max (suc a % 2) (b % 2))
        (sym (bit_or-bitwise (suc a / 2) (b / 2)))

pub pow2_pos : (k : ℕ) → 1 ≤ 2 ^ k
pow2_pos zero = omega arith
pow2_pos (suc k) = omega (arith, pow-suc 2 k, pow2_pos k)

pub pow2_add : (n k : ℕ) → 2 ^ (n + k) ≡ 2 ^ n * 2 ^ k
pow2_add zero k = let e : 0 + k ≡ k = omega arith in rw e (omega arith)
pow2_add (suc n) k =
    let e : suc n + k ≡ suc (n + k) = omega arith in
    ap (λ (x : ℕ). 2 ^ x) e
    ∙ pow-suc 2 (n + k)
    ∙ ap (λ (x : ℕ). x * 2) (pow2_add n k)
    ∙ omega (arith, ap (λ (x : ℕ). x * 2 ^ k) (pow-suc 2 n))

-- The remainder by twice a number, one digit at a time.
mod_double : (a m : ℕ) → 1 ≤ m → a % (m * 2) ≡ a / 2 % m * 2 + a % 2
mod_double a m h =
    ap (λ (x : ℕ). x % (m * 2)) split
    ∙ mul-add-mod_self_left (m * 2) (a / 2 / m) (a / 2 % m * 2 + a % 2)
    ∙ mod-eq_of_lt (omega (arith, mod-lt (a / 2) {m = m} h))
  where
    split : a ≡ m * 2 * (a / 2 / m) + (a / 2 % m * 2 + a % 2)
    split = omega (arith, div-add-mod (a / 2) m)

-- Fields that do not overlap are joined by addition.
pub bit_or_high : (k lo hi : ℕ) → lo < 2 ^ k → bit_or lo (hi * 2 ^ k) ≡ lo + hi * 2 ^ k
bit_or_high zero lo hi h =
    let e : lo ≡ 0 = omega arith in rw e (omega (arith, bit_or-bitwise 0 (hi * 1)))
bit_or_high (suc k) lo hi h =
    let e : hi * 2 ^ suc k ≡ hi * (2 ^ k * 2) = ap (λ (x : ℕ). hi * x) (pow-suc 2 k) in
    let halve : hi * 2 ^ suc k / 2 ≡ hi * 2 ^ k = omega arith in
    bit_or_low lo (hi * 2 ^ suc k)
    ∙ rw (halve, bit_or_high k (lo / 2) hi (omega (arith, pow-suc 2 k))) (omega arith)

bit_and_ones : (k a : ℕ) → a < 2 ^ k → bit_and a (2 ^ k - 1) ≡ a
bit_and_ones zero a h = let e : a ≡ 0 = omega arith in rw e (bit_and-bitwise 0 0)
bit_and_ones (suc k) a h =
    let halve : (2 ^ suc k - 1) / 2 ≡ 2 ^ k - 1 = omega (arith, pow-suc 2 k, pow2_pos k) in
    bit_and_low a (2 ^ suc k - 1)
    ∙ rw (halve, bit_and_ones k (a / 2) (omega (arith, pow-suc 2 k)))
        (omega (arith, pow-suc 2 k, pow2_pos k))

-- A field of zeros.
bit_and-zero_below : (k x : ℕ) → x < 2 ^ k → bit_and x 0 ≡ 0
bit_and-zero_below zero x h = let e : x ≡ 0 = omega arith in rw e (bit_and-bitwise 0 0)
bit_and-zero_below (suc k) x h =
    omega (arith, bit_and_low x 0, bit_and-zero_below k (x / 2) (omega (arith, h, pow-suc 2 k)))

lt-pow2 : (n : ℕ) → n < 2 ^ n
lt-pow2 zero = omega arith
lt-pow2 (suc n) = omega (arith, lt-pow2 n, pow-suc 2 n)

bit_and-zero : (x : ℕ) → bit_and x 0 ≡ 0
bit_and-zero x = bit_and-zero_below x x (lt-pow2 x)

-- A mask of `k` ones keeps the remainder.
pub bit_and_mask : (k a : ℕ) → bit_and a (2 ^ k - 1) ≡ a % 2 ^ k
bit_and_mask zero a = omega (arith, bit_and-zero a)
bit_and_mask (suc k) a =
    let halve : (2 ^ suc k - 1) / 2 ≡ 2 ^ k - 1 = omega (arith, pow-suc 2 k, pow2_pos k) in
    bit_and_low a (2 ^ suc k - 1)
    ∙ rw (halve, bit_and_mask k (a / 2), pow-suc, mod_double a (2 ^ k) (pow2_pos k))
        (omega (arith, pow-suc 2 k, pow2_pos k))

-- A mask of `n` ones over `k` zeros clears the low `k` digits.
pub bit_and_high : (n k a : ℕ) → a < 2 ^ n * 2 ^ k → bit_and a ((2 ^ n - 1) * 2 ^ k) + a % 2 ^ k ≡ a
bit_and_high n zero a h =
    let e : (2 ^ n - 1) * 2 ^ 0 ≡ 2 ^ n - 1 = omega arith in
    rw e (omega (arith, bit_and_ones n a (omega arith)))
bit_and_high n (suc k) a h =
    let m : ℕ = (2 ^ n - 1) * 2 ^ k in
    let twice : (2 ^ n - 1) * 2 ^ suc k ≡ m * 2 =
      omega (arith, ap (λ (x : ℕ). (2 ^ n - 1) * x) (pow-suc 2 k)) in
    let halve : m * 2 / 2 ≡ m = omega arith in
    let ih = bit_and_high n k (a / 2) (omega (arith, ap (λ (x : ℕ). 2 ^ n * x) (pow-suc 2 k))) in
    let low : bit_and a (m * 2) ≡ bit_and (a / 2) m * 2 =
      bit_and_low a (m * 2) ∙ rw halve (omega arith) in
    rw twice (
      omega (
        arith,
        low,
        ih,
        pow-suc 2 k,
        mod_double a (2 ^ k) (pow2_pos k),
        ap (λ (x : ℕ). a % x) (pow-suc 2 k),
      ))

bit_or-zero_fuel : (n a : ℕ) → a ≤ n → bit_or a 0 ≡ a
bit_or-zero_fuel n zero h = bit_or-bitwise 0 0
bit_or-zero_fuel zero (suc a) h = absurd (omega arith)
bit_or-zero_fuel (suc n) (suc a) h =
    omega (arith, bit_or_low (suc a) 0, bit_or-zero_fuel n (suc a / 2) (omega arith))

-- The same with the high field first.
pub bit_or_high_left : (k hi lo : ℕ) → lo < 2 ^ k → bit_or (hi * 2 ^ k) lo ≡ hi * 2 ^ k + lo
bit_or_high_left zero hi lo h =
    let e : lo ≡ 0 = omega arith in
    rw e (omega (arith, bit_or-zero_fuel (hi * 1) (hi * 1) (omega arith)))
bit_or_high_left (suc k) hi lo h =
    let e : hi * 2 ^ suc k ≡ hi * (2 ^ k * 2) = ap (λ (x : ℕ). hi * x) (pow-suc 2 k) in
    let halve : hi * 2 ^ suc k / 2 ≡ hi * 2 ^ k = omega arith in
    bit_or_low (hi * 2 ^ suc k) lo
    ∙ rw (halve, bit_or_high_left k hi (lo / 2) (omega (arith, pow-suc 2 k))) (omega arith)

-- One bit.
pub bit_and_four : (a : ℕ) → bit_and a 4 ≡ a / 4 % 2 * 4
bit_and_four a = omega (arith, bit_and_low a 4, bit_and_low (a / 2) 2, bit_and_mask 1 (a / 2 / 2))
