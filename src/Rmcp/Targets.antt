-- ===== src/Rmcp/Targets.antt =====
-- rmcp/src/target_range.cpp: a scan specification to the list of addresses that it names. An
-- address is its 32 bits as a number; what is written to `errorOut` is returned beside the list.
pub mod Ranges
use mesh_commander.Prelude.{
  ℕ, zero, suc, ◌+◌, ◌-◌, ◌*◌, ◌/◌, ◌%◌, ◌^◌, ◌≤◌, ◌<◌, min, ◌≡◌, ◌≢◌, refl, sym, ap, ◌∙◌, ◌⊎◌, inl,
  inr, ◌↔◌, Bool, true, false, not, ◌&&◌, ◌||◌, List, [], ◌∷◌, ◌++◌, Option, none, some, map, ltb,
  leb, ◌==◌, if◌then◌else◌, length, get_or, Bool-cases, Option-cases, arith, bit_and, ℤ, pos,
  negsuc,
}
use mesh_commander.Wire.{shl}

-- What the code takes from Qt: QString::trimmed, QString::contains and QString::split by one
-- character, QString::toInt, and parseIPv4's QHostAddress (setAddress on the trimmed text, then
-- toIPv4Address, a quint32).
pub record Qt : Type 0 where
  pub trimmed : List ℕ → List ℕ
  pub contains : ℕ → List ℕ → Bool
  pub split : ℕ → List ℕ → List (List ℕ)
  pub to_int : List ℕ → Option ℤ
  pub host_address : List ℕ → Option ℕ
  pub host_address_lt : (s : List ℕ) (a : ℕ) → host_address s ≡ some a → a < 2 ^ 32

-- The messages.
pub data Error : Type 0 where
  target_empty cidr_shape cidr_base cidr_mask : Error
  cidr_too_broad : ℕ → Error
  range_shape range_endpoints range_order : Error
  range_too_long : ℕ → Error
  not_an_address : Error

-- The list that is returned, and the message for `*errorOut`, if the caller gives one.
pub record Targets : Type 0 where
  pub addresses : List ℕ
  pub error_out : Option Error

-- `return out;` with no message.
abbrev pub targets : List ℕ → Targets
targets list = record { addresses = list; error_out = none }

-- `setError(errorOut, ...); return {};`
abbrev pub err : Error → Targets
err e = record { addresses = []; error_out = some e }

-- `for (i = 0; i < count; ++i) out.append(quint32(network + i))`
unfoldable pub count_up : ℕ → ℕ → List ℕ
count_up from zero = []
count_up from (suc n) = from % 2 ^ 32 ∷ count_up (from + 1) n

-- The block of a CIDR base and a mask that has been checked.
unfoldable pub expand_cidr : ℕ → ℕ → List ℕ
unfolding count_up
expand_cidr base mask =
    let host_bits : ℕ = 32 - mask in
    let netmask : ℕ = if mask == 0 then 0 else shl (2 ^ 32 - 1) host_bits % 2 ^ 32 in
    let network : ℕ = bit_and base netmask in count_up network (2 ^ host_bits)

-- The mask's tests; a negative one fails the range test like one above 32.
unfoldable pub with_mask : ℕ → Option ℤ → Targets
with_mask base none = err cidr_mask
with_mask base (some (negsuc n)) = err cidr_mask
with_mask base (some (pos mask)) =
    if ltb 32 mask
    then err cidr_mask
    else if ltb mask 16
    then err (cidr_too_broad mask)
    else targets (expand_cidr base mask)

unfoldable pub with_base : Option ℕ → Option ℤ → Targets
with_base none mask = err cidr_base
with_base (some base) mask = with_mask base mask

unfoldable pub only_address : Option ℕ → Targets
only_address none = err not_an_address
only_address (some only) = targets (only ∷ [])

unfoldable pub with_endpoints : Option ℕ → Option ℕ → Targets
unfolding count_up
with_endpoints none high = err range_endpoints
with_endpoints (some lo) none = err range_endpoints
with_endpoints (some lo) (some hi) =
    let count : ℕ = hi - lo + 1 in
    if ltb hi lo
    then err range_order
    else if ltb 65536 count
    then err (range_too_long count)
    else targets (count_up lo count)

module _ (qt : Qt) where
  unfoldable pub parse_ipv4 : List ℕ → Option ℕ
  parse_ipv4 s = qt.host_address (qt.trimmed s)

  unfoldable pub parse_cidr : List (List ℕ) → Targets
  unfolding parse_ipv4
  parse_cidr (base ∷ mask ∷ []) = with_base (parse_ipv4 base) (qt.to_int mask)
  parse_cidr parts = err cidr_shape

  unfoldable pub parse_range : List (List ℕ) → Targets
  unfolding parse_ipv4
  parse_range (lo ∷ hi ∷ []) = with_endpoints (parse_ipv4 lo) (parse_ipv4 hi)
  parse_range parts = err range_shape

  unfoldable pub parse_single : List ℕ → Targets
  unfolding parse_ipv4
  parse_single s = only_address (parse_ipv4 s)

  unfoldable pub parse_targets : List ℕ → Targets
  parse_targets spec =
      let s : List ℕ = qt.trimmed spec in
      if length s == 0
      then err target_empty
      else if qt.contains b'/' s
      then parse_cidr (qt.split b'/' s)
      else if qt.contains b'-' s
      then parse_range (qt.split b'-' s)
      else parse_single s
