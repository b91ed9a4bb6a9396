-- ===== src/Rmcp/Targets/Ranges.antt =====
-- What the lists of rmcp/src/target_range.cpp hold.
use native.Mathlib.Nat.{
  pow-le-pow_right, mul-le-mul_right, div-add-mod, div-lt_iff_lt-mul, mod-eq_of_lt,
  mul-add-mod_self_left,
}
use mesh_commander.Prelude.{
  ℕ, zero, suc, ◌+◌, ◌-◌, ◌*◌, ◌/◌, ◌%◌, ◌^◌, ◌≤◌, ◌<◌, ◌≡◌, refl, sym, ap, ◌∙◌, inl, inr, false,
  List, [], ◌∷◌, Option, none, some, ltb, ◌==◌, length, get_or, Bool-cases, arith, ℤ, pos, negsuc,
  bit_and, bit_and_high, pow2_pos, pow2_add,
}
use mesh_commander.Wire.{shl}
use mesh_commander.Rmcp.Targets.{
  Qt, Error, Targets, targets, count_up, expand_cidr, with_mask, with_endpoints, parse_ipv4,
  parse_cidr, parse_range, parse_single, parse_targets, with_base, only_address,
}

length-count_up : (from n : ℕ) → length (count_up from n) ≡ n
unfolding count_up
length-count_up from zero = refl
length-count_up from (suc n) = ap suc (length-count_up (from + 1) n)

get-count_up : (from n i : ℕ) → i < n → from + n ≤ 2 ^ 32 → get_or (count_up from n) i 0 ≡ from + i
unfolding count_up
get-count_up from zero i h l = absurd (omega arith)
get-count_up from (suc n) zero h l = omega arith
get-count_up from (suc n) (suc i) h l =
    get-count_up (from + 1) n i (omega arith) (omega arith) ∙ omega arith

-- A word of ones, shifted left by the digits of `suc k` and cut to the word.
ones_shifted : (n k m : ℕ) → suc n * suc k ≡ suc m → m * suc k % suc m ≡ n * suc k
ones_shifted n k m e =
    ap (λ (x : ℕ). x % suc m) split
    ∙ mul-add-mod_self_left (suc m) k (n * suc k)
    ∙ mod-eq_of_lt (omega (arith, e))
  where
    split : m * suc k ≡ suc m * k + n * suc k
    split = omega (arith, e)

suc_pred : (n : ℕ) → 1 ≤ n → suc (n - 1) ≡ n
suc_pred n h = omega arith

-- The mask of a word of `n + k` digits.
netmask_of : (n k : ℕ) → (2 ^ (n + k) - 1) * 2 ^ k % 2 ^ (n + k) ≡ (2 ^ n - 1) * 2 ^ k
netmask_of n k =
    let pn = suc_pred (2 ^ n) (pow2_pos n) in
    let pk = suc_pred (2 ^ k) (pow2_pos k) in
    let pm = suc_pred (2 ^ (n + k)) (pow2_pos (n + k)) in
    let e : suc (2 ^ n - 1) * suc (2 ^ k - 1) ≡ suc (2 ^ (n + k) - 1) =
      ap (λ (x : ℕ). x * suc (2 ^ k - 1)) pn
      ∙ ap (λ (x : ℕ). 2 ^ n * x) pk
      ∙ sym (pow2_add n k)
      ∙ sym pm in
    ap (λ (x : ℕ). (2 ^ (n + k) - 1) * x % 2 ^ (n + k)) (sym pk)
    ∙ ap (λ (x : ℕ). (2 ^ (n + k) - 1) * suc (2 ^ k - 1) % x) (sym pm)
    ∙ ones_shifted (2 ^ n - 1) (2 ^ k - 1) (2 ^ (n + k) - 1) e
    ∙ ap (λ (x : ℕ). (2 ^ n - 1) * x) pk

network_of :
    (base n k : ℕ)
    → n + k ≡ 32
    → base < 2 ^ 32
    → bit_and base (shl (2 ^ 32 - 1) k % 2 ^ 32) + base % 2 ^ k ≡ base
network_of base n k e h =
    let w : 2 ^ (n + k) ≡ 2 ^ 32 = ap (λ (x : ℕ). 2 ^ x) e in
    let mask : (2 ^ 32 - 1) * 2 ^ k % 2 ^ 32 ≡ (2 ^ n - 1) * 2 ^ k =
      ap (λ (x : ℕ). (x - 1) * 2 ^ k % x) (sym w) ∙ netmask_of n k in
    rw mask (bit_and_high n k base (omega (arith, h, w, pow2_add n k)))

-- The block of an address lies in the space when its size divides the space.
block_fits : (base n size : ℕ) → 1 ≤ size → base < n * size → base - base % size + size ≤ n * size
block_fits base n size h l =
    let q : ℕ = base / size in
    let below : suc q ≤ n = (div-lt_iff_lt-mul {x = base} {y = n} h).1 l in
    omega (arith, div-add-mod base size, mul-le-mul_right size below)

-- For a base address and a mask from 16 to 32 the expansion has 2^(32 - mask) addresses, and
-- the i-th is the base rounded down to a multiple of that size, plus i.
pub expand_cidr_lem :
    (base mask : ℕ)
    → base < 2 ^ 32
    → 16 ≤ mask
    → mask ≤ 32
    → let size : ℕ = 2 ^ (32 - mask) in
      (length (expand_cidr base mask) ≡ size)
      × ((i : ℕ) → i < size → get_or (expand_cidr base mask) i 0 ≡ base - base % size + i)
unfolding expand_cidr
expand_cidr_lem base mask h lo hi =
    let k : ℕ = 32 - mask in
    let size : ℕ = 2 ^ k in
    let network : ℕ = bit_and base (shl (2 ^ 32 - 1) k % 2 ^ 32) in
    let not_zero : (mask == 0) ≡ false = ground arith in
    let same_sum : mask + k ≡ 32 = omega arith in
    let at : network ≡ base - base % size = omega (arith, network_of base mask k same_sum h) in
    let space : 2 ^ 32 ≡ 2 ^ mask * size = ap (λ (x : ℕ). 2 ^ x) (sym same_sum) ∙ pow2_add mask k in
    let fits : base - base % size + size ≤ 2 ^ 32 =
      omega (arith, block_fits base (2 ^ mask) size (pow2_pos k) (omega (arith, space))) in
    rw not_zero (
      length-count_up network size,
      λ i l. get-count_up network size i l (omega (arith, at, fits)) ∙ ap (λ (x : ℕ). x + i) at,
    )

-- For endpoints in order, the last below 2^32 and less than 65536 behind the first, the range
-- is the list of all addresses from the first to the last, in order.
pub with_endpoints_lem :
    (lo hi : ℕ)
    → lo ≤ hi
    → hi < 2 ^ 32
    → hi - lo < 65536
    → (list : List ℕ) × (with_endpoints (some lo) (some hi) ≡ targets list)
      × (length list ≡ hi - lo + 1)
      × ((i : ℕ) → i ≤ hi - lo → get_or list i 0 ≡ lo + i)
unfolding with_endpoints
with_endpoints_lem lo hi h b c = (
  count_up lo (hi - lo + 1),
  ground arith,
  length-count_up lo (hi - lo + 1),
  λ i l. get-count_up lo (hi - lo + 1) i (omega arith) (omega arith),
)

-- No more than a /16 of addresses, at least one, each of 32 bits.
abbrev pub AllAddresses : List ℕ → Type 0
AllAddresses [] = Unit {0}
AllAddresses (a ∷ list) = (a < 2 ^ 32) × AllAddresses list

abbrev pub AreBounded : List ℕ → Option Error → Type 0
AreBounded list none = (1 ≤ length list) × (length list ≤ 65536) × AllAddresses list
AreBounded list (some e) = list ≡ []

abbrev pub IsBounded : Targets → Type 0
IsBounded t = AreBounded t.addresses t.error_out

AllAddresses-count_up : (from n : ℕ) → AllAddresses (count_up from n)
unfolding count_up
AllAddresses-count_up from zero = tt
AllAddresses-count_up from (suc n) = (omega arith, AllAddresses-count_up (from + 1) n)

IsBounded-count_up : (from n : ℕ) → 1 ≤ n → n ≤ 65536 → IsBounded (targets (count_up from n))
IsBounded-count_up from n h l = (
  omega (arith, length-count_up from n),
  omega (arith, length-count_up from n),
  AllAddresses-count_up from n,
)

IsBounded-expand_cidr : (base mask : ℕ) → 16 ≤ mask → IsBounded (targets (expand_cidr base mask))
unfolding expand_cidr
IsBounded-expand_cidr base mask h =
    let few : 32 - mask ≤ 16 = omega arith in
    IsBounded-count_up _ (2 ^ (32 - mask)) (pow2_pos (32 - mask))
      (pow-le-pow_right {n = 2} (omega arith) few)

IsBounded-with_endpoints : (lo hi : Option ℕ) → IsBounded (with_endpoints lo hi)
unfolding with_endpoints
IsBounded-with_endpoints none hi = refl
IsBounded-with_endpoints (some lo) none = refl
IsBounded-with_endpoints (some lo) (some hi) = elim (Bool-cases (ltb hi lo)) [
  | inl a ↦ rw a refl
  | inr a ↦ elim (Bool-cases (ltb 65536 (hi - lo + 1))) [
    | inl b ↦ rw (a, b) refl
    | inr b ↦ rw (a, b) (IsBounded-count_up lo (hi - lo + 1) (omega arith) (ground (arith, b)))
  ]
]

IsBounded-with_mask : (base : ℕ) (mask : Option ℤ) → IsBounded (with_mask base mask)
unfolding with_mask
IsBounded-with_mask base none = refl
IsBounded-with_mask base (some (negsuc n)) = refl
IsBounded-with_mask base (some (pos mask)) = elim (Bool-cases (ltb 32 mask)) [
  | inl a ↦ rw a refl
  | inr a ↦ elim (Bool-cases (ltb mask 16)) [
    | inl b ↦ rw (a, b) refl
    | inr b ↦ rw (a, b) (IsBounded-expand_cidr base mask (ground (arith, b)))
  ]
]

IsBounded-parse_range : (qt : Qt) (parts : List (List ℕ)) → IsBounded (parse_range qt parts)
unfolding parse_range
IsBounded-parse_range qt [] = refl
IsBounded-parse_range qt (lo ∷ []) = refl
IsBounded-parse_range qt (lo ∷ hi ∷ []) =
    IsBounded-with_endpoints (parse_ipv4 qt lo) (parse_ipv4 qt hi)
IsBounded-parse_range qt (lo ∷ hi ∷ x ∷ parts) = refl

IsBounded-with_base : (base : Option ℕ) (mask : Option ℤ) → IsBounded (with_base base mask)
unfolding with_base
IsBounded-with_base none mask = refl
IsBounded-with_base (some base) mask = IsBounded-with_mask base mask

IsBounded-parse_cidr : (qt : Qt) (parts : List (List ℕ)) → IsBounded (parse_cidr qt parts)
unfolding parse_cidr
IsBounded-parse_cidr qt [] = refl
IsBounded-parse_cidr qt (base ∷ []) = refl
IsBounded-parse_cidr qt (base ∷ mask ∷ []) =
    IsBounded-with_base (parse_ipv4 qt base) (qt.to_int mask)
IsBounded-parse_cidr qt (base ∷ mask ∷ x ∷ parts) = refl

IsBounded-only_address :
    (o : Option ℕ) → ((a : ℕ) → o ≡ some a → a < 2 ^ 32) → IsBounded (only_address o)
unfolding only_address
IsBounded-only_address none h = refl
IsBounded-only_address (some a) h = (omega arith, omega arith, (h a refl, tt))

IsBounded-parse_single : (qt : Qt) (s : List ℕ) → IsBounded (parse_single qt s)
unfolding parse_single parse_ipv4
IsBounded-parse_single qt s =
    IsBounded-only_address (qt.host_address (qt.trimmed s)) (qt.host_address_lt (qt.trimmed s))

-- Whatever the specification and whatever Qt's parsing makes of it, parseTargets returns 1 to
-- 65536 addresses, each below 2^32, with no message, or the empty list with a message.
pub parse_targets_bounds : (qt : Qt) (spec : List ℕ) → IsBounded (parse_targets qt spec)
unfolding parse_targets
parse_targets_bounds qt spec =
    let s : List ℕ = qt.trimmed spec in
    elim (Bool-cases (length s == 0)) [
      | inl a ↦ rw a refl
      | inr a ↦ elim (Bool-cases (qt.contains b'/' s)) [
        | inl b ↦ rw (a, b) (IsBounded-parse_cidr qt (qt.split b'/' s))
        | inr b ↦ elim (Bool-cases (qt.contains b'-' s)) [
          | inl c ↦ rw (a, b, c) (IsBounded-parse_range qt (qt.split b'-' s))
          | inr c ↦ rw (a, b, c) (IsBounded-parse_single qt s)
        ]
      ]
    ]
