-- ===== src/Wire.antt =====
-- Little-endian words on the wire: pack16Le, pack32Le, read16Le and read32Le of
-- ider/src/ider_codec.cpp, which redir/src/redir_codec.cpp has once more. A byte is a number below
-- 256; a read past the end, which the callers rule out, gives 0.
use mesh_commander.Prelude.{
  ℕ, ◌+◌, ◌*◌, ◌/◌, ◌%◌, ◌^◌, ◌≤◌, ◌<◌, ◌≡◌, ◌∙◌, List, [], ◌∷◌, ◌++◌, Option, some, length, get_or,
  arith, get_or-append_left, bit_and, bit_or, bit_or_high, bit_and_mask,
}

-- `<<` and `>>`.
abbrev pub shl : ℕ → ℕ → ℕ
shl a k = a * 2 ^ k

abbrev pub shr : ℕ → ℕ → ℕ
shr a k = a / 2 ^ k

unfoldable pub pack16_le : ℕ → List ℕ
pack16_le v = bit_and v 0xFF ∷ bit_and (shr v 8) 0xFF ∷ []

unfoldable pub pack32_le : ℕ → List ℕ
pack32_le v =
    bit_and v 0xFF ∷ bit_and (shr v 8) 0xFF ∷ bit_and (shr v 16) 0xFF ∷ bit_and (shr v 24) 0xFF ∷ []

unfoldable pub read16_le : List ℕ → ℕ → ℕ
read16_le v off = bit_or (get_or v off 0) (shl (get_or v (off + 1) 0) 8) % 2 ^ 16

unfoldable pub read32_le : List ℕ → ℕ → ℕ
read32_le v off =
    bit_or
      (bit_or (bit_or (get_or v off 0) (shl (get_or v (off + 1) 0) 8))
        (shl (get_or v (off + 2) 0) 16))
      (shl (get_or v (off + 3) 0) 24)
    % 2 ^ 32

abbrev pub AllBytes : List ℕ → Type 0
AllBytes [] = Unit {0}
AllBytes (b ∷ bytes) = (b < 256) × AllBytes bytes

join16 : (a b : ℕ) → a < 256 → b < 256 → bit_or a (shl b 8) % 2 ^ 16 ≡ a + b * 256
join16 a b ha hb = omega (arith, bit_or_high 8 a b ha)

join32 :
    (a b c d : ℕ)
    → a < 256
    → b < 256
    → c < 256
    → d < 256
    → bit_or (bit_or (bit_or a (shl b 8)) (shl c 16)) (shl d 24) % 2 ^ 32
      ≡ a + b * 2 ^ 8 + c * 2 ^ 16 + d * 2 ^ 24
join32 a b c d ha hb hc hd =
    rw
      (
        bit_or_high 8 a b ha,
        bit_or_high 16 (a + b * 256) c (omega arith),
        bit_or_high 24 (a + b * 256 + c * 65536) d (omega arith),
      )
      (omega arith)

mask8 : (v : ℕ) → bit_and v 0xFF ≡ v % 256
mask8 v = bit_and_mask 8 v

pub pack16_le-AllBytes : (v : ℕ) → AllBytes (pack16_le v)
unfolding pack16_le
pack16_le-AllBytes v = omega (arith, mask8 v, mask8 (shr v 8))

pub pack32_le-AllBytes : (v : ℕ) → AllBytes (pack32_le v)
unfolding pack32_le
pack32_le-AllBytes v = omega (arith, mask8 v, mask8 (shr v 8), mask8 (shr v 16), mask8 (shr v 24))

-- Reading back what was packed, at the front of a buffer.
pub read16_le-pack16_le :
    (v : ℕ) (rest : List ℕ) → v < 2 ^ 16 → read16_le (pack16_le v ++ rest) 0 ≡ v
unfolding read16_le pack16_le
read16_le-pack16_le v rest h =
    join16 (bit_and v 0xFF) (bit_and (shr v 8) 0xFF) (omega (arith, mask8 v))
      (omega (arith, mask8 (shr v 8)))
    ∙ omega (arith, mask8 v, mask8 (shr v 8))

pub read32_le-pack32_le :
    (v : ℕ) (rest : List ℕ) → v < 2 ^ 32 → read32_le (pack32_le v ++ rest) 0 ≡ v
unfolding read32_le pack32_le
read32_le-pack32_le v rest h =
    join32 (bit_and v 0xFF) (bit_and (shr v 8) 0xFF) (bit_and (shr v 16) 0xFF)
      (bit_and (shr v 24) 0xFF) (omega (arith, mask8 v)) (omega (arith, mask8 (shr v 8)))
      (omega (arith, mask8 (shr v 16))) (omega (arith, mask8 (shr v 24)))
    ∙ omega (arith, mask8 v, mask8 (shr v 8), mask8 (shr v 16), mask8 (shr v 24))

-- The value of the bytes that stand at `off`.
pub read16_le_value :
    (buffer : List ℕ) (off a b : ℕ)
    → get_or buffer off 0 ≡ a
    → get_or buffer (off + 1) 0 ≡ b
    → a < 256
    → b < 256
    → read16_le buffer off ≡ a + b * 256
unfolding read16_le
read16_le_value buffer off a b p q ha hb = rw (p, q) (join16 a b ha hb)

-- A word that lies inside a buffer is not changed by what follows the buffer.
pub read16_le-append :
    (buffer more : List ℕ) (off : ℕ)
    → off + 2 ≤ length buffer
    → read16_le (buffer ++ more) off ≡ read16_le buffer off
unfolding read16_le
read16_le-append buffer more off h = rw (
  get_or-append_left buffer more off 0 (omega arith),
  get_or-append_left buffer more (off + 1) 0 (omega arith),
)

pub read32_le-append :
    (buffer more : List ℕ) (off : ℕ)
    → off + 4 ≤ length buffer
    → read32_le (buffer ++ more) off ≡ read32_le buffer off
unfolding read32_le
read32_le-append buffer more off h = rw (
  get_or-append_left buffer more off 0 (omega arith),
  get_or-append_left buffer more (off + 1) 0 (omega arith),
  get_or-append_left buffer more (off + 2) 0 (omega arith),
  get_or-append_left buffer more (off + 3) 0 (omega arith),
)

-- What is true of a parser of frames that arrive in pieces: it takes no more than is there, and a
-- frame that it has found stays found when more bytes arrive.
abbrev pub IsStreaming {ℓ} : {A : Type ℓ} → (List ℕ → Option (A × ℕ)) → Type ℓ
IsStreaming {A = A} parse =
    (buffer more : List ℕ) (a : A) (consumed : ℕ)
    → parse buffer ≡ some (a, consumed)
    → (consumed ≤ length buffer) × (parse (buffer ++ more) ≡ some (a, consumed))
