-- ===== src/Rmcp/Tests.antt =====
-- Datagrams and scan specifications of rmcp/ on small inputs.
use mesh_commander.Prelude.{
  ℕ, ◌+◌, ◌-◌, ◌*◌, ◌%◌, ◌^◌, ◌<◌, ◌≡◌, Bool, true, false, ◌||◌, List, [], ◌∷◌, Option, none, some,
  ◌==◌, if◌then◌else◌, length, get_or, arith,
}
use mesh_commander.Prelude.{ℤ, pos, Option}
use mesh_commander.Rmcp.Pong.{PongMessage, post_provisioning, parse_pong}
use mesh_commander.Rmcp.Pong.Layout.{encode_pong, parse-encode_pong}
use mesh_commander.Rmcp.Targets.{Qt, expand_cidr, parse_targets}
use mesh_commander.Rmcp.Targets.Ranges.{IsBounded, expand_cidr_lem, parse_targets_bounds}

abbrev pong : PongMessage
pong = record {
  tag = 7;
  version_major = 12;
  version_minor = 2;
  provisioning = post_provisioning;
  dual_ports = true;
  open_port = 16992;
}

pong_parsed : parse_pong (encode_pong pong 3 []) ≡ some pong
pong_parsed = parse-encode_pong pong 3 [] (omega arith) (omega arith) (omega arith) (omega arith)

-- 10.0.1.77/28.
expand_cidr_lem_example :
    let size : ℕ = 2 ^ (32 - 28) in
    (length (expand_cidr 0x0A00014D 28) ≡ size)
    × ((i : ℕ)
        → i < size
        → get_or (expand_cidr 0x0A00014D 28) i 0 ≡ 0x0A00014D - 0x0A00014D % size + i)
expand_cidr_lem_example = expand_cidr_lem 0x0A00014D 28 (omega arith) (omega arith) (omega arith)

-- A stand-in for Qt: an address is one byte, the last of 10.0.0.0/24, and a number is two digits.
abbrev one_byte : List ℕ → Option ℕ
one_byte (b ∷ []) = some (0x0A000000 + b % 256)
one_byte s = none

one_byte-lt : (s : List ℕ) (a : ℕ) → one_byte s ≡ some a → a < 2 ^ 32
one_byte-lt [] a e = ground arith
one_byte-lt (b ∷ []) a e = ground arith
one_byte-lt (b ∷ c ∷ s) a e = ground arith

abbrev two_digits : List ℕ → Option ℤ
two_digits (a ∷ b ∷ []) = some (pos ((a - b'0') * 10 + (b - b'0')))
two_digits s = none

abbrev contains : ℕ → List ℕ → Bool
contains c [] = false
contains c (x ∷ s) = (x == c) || contains c s

abbrev add_to_first : ℕ → List (List ℕ) → List (List ℕ)
add_to_first x [] = (x ∷ []) ∷ []
add_to_first x (part ∷ parts) = (x ∷ part) ∷ parts

abbrev split : ℕ → List ℕ → List (List ℕ)
split c [] = [] ∷ []
split c (x ∷ s) = let parts = split c s in if x == c then [] ∷ parts else add_to_first x parts

abbrev bytes : Qt
bytes = record {
  trimmed = λ s. s;
  contains = contains;
  split = split;
  to_int = two_digits;
  host_address = one_byte;
  host_address_lt = one_byte-lt;
}

parse_targets_bounds_example : IsBounded (parse_targets bytes (b'a' ∷ b'/' ∷ b'2' ∷ b'4' ∷ []))
parse_targets_bounds_example = parse_targets_bounds bytes (b'a' ∷ b'/' ∷ b'2' ∷ b'4' ∷ [])
