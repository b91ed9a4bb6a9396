-- ===== src/Kvm/Rects/Wire.antt =====
-- kvm/src/kvm_codec.cpp: pixels, palettes and lengths of runs as an encoder writes them, and as they are
-- read back.
use mesh_commander.Kvm.Tiles.{index_run, pull_pixels, pull_pixel, read_run, run_of}
use mesh_commander.Kvm.Codec.{PixelFormat, rgb565, rgb332, rgb565_to_argb, rgb332_to_argb}
use mathlib.Core.List.{append_assoc}
use mesh_commander.Prelude.{
  bit_and, bit_or, ℕ, zero, suc, ◌+◌, ◌-◌, ◌*◌, ◌/◌, ◌%◌, ◌^◌, ◌≤◌, ◌<◌, ◌≡◌, ◌≢◌, refl, ap, ◌∙◌,
  true, false, List, [], ◌∷◌, ◌++◌, some, map, ltb, leb, ◌==◌, if◌then◌else◌, length, arith,
  all_below_sound, ==_iff, all_below, replicate, bit_or_high,
}

-- A pixel on the wire, its bytes and its colour.
abbrev pub IsWirePixel : PixelFormat → ℕ → Type 0
IsWirePixel rgb565 v = v < 2 ^ 16
IsWirePixel rgb332 v = v < 2 ^ 8

abbrev pub wire_bytes : PixelFormat → ℕ → List ℕ
wire_bytes rgb565 v = v % 256 ∷ v / 256 ∷ []
wire_bytes rgb332 v = v ∷ []

abbrev pub colour_of : PixelFormat → ℕ → ℕ
colour_of rgb565 v = rgb565_to_argb v
colour_of rgb332 v = rgb332_to_argb v

-- The length of a run behind its first pixel.
abbrev pub run_bytes : ℕ → List ℕ
run_bytes n = replicate ((n - 1) / 255) 0xFF ++ ((n - 1) % 255 ∷ [])

pub pull_pixel-wire_bytes :
    (f : PixelFormat) (v : ℕ) (rest : List ℕ)
    → IsWirePixel f v
    → pull_pixel f (wire_bytes f v ++ rest) ≡ some (colour_of f v, rest)
unfolding pull_pixel
pull_pixel-wire_bytes rgb565 v rest h =
    let e : bit_or (v % 256) (v / 256 * 2 ^ 8) ≡ v =
      bit_or_high 8 (v % 256) (v / 256) (omega arith) ∙ omega arith in
    ap (λ x. some (rgb565_to_argb x, rest)) e
pull_pixel-wire_bytes rgb332 v rest h = refl

read_run-full :
    (k run d : ℕ) (rest : List ℕ)
    → d < 255
    → run + k * 255 + d < 2 ^ 31
    → read_run run (replicate k 0xFF ++ (d ∷ rest)) ≡ run_of (run + k * 255 + d) rest
unfolding read_run
read_run-full zero run d rest h s = ground arith
read_run-full (suc k) run d rest h s =
    let fits : leb (2 ^ 31) (run + 0xFF) ≡ false = ground arith in
    rw (fits, read_run)
      (read_run-full k (run + 0xFF) d rest h (omega arith)
        ∙ ap (λ (n : ℕ). run_of n rest) (omega arith))

append_assoc3 : (xs : List ℕ) (d : ℕ) (rest : List ℕ) → (xs ++ (d ∷ [])) ++ rest ≡ xs ++ (d ∷ rest)
append_assoc3 [] d rest = refl
append_assoc3 (x ∷ xs) d rest = ap (◌∷◌ x) (append_assoc3 xs d rest)

pub read_run-run_bytes :
    (n : ℕ) (rest : List ℕ) → 1 ≤ n → n < 2 ^ 31 → read_run 1 (run_bytes n ++ rest) ≡ run_of n rest
read_run-run_bytes n rest h s =
    ap (read_run 1) (append_assoc3 (replicate ((n - 1) / 255) 0xFF) ((n - 1) % 255) rest)
    ∙ read_run-full ((n - 1) / 255) 1 ((n - 1) % 255) rest (omega arith) (omega arith)
    ∙ ap (λ (n : ℕ). run_of n rest) (omega arith)

-- A palette, one entry behind the other.
abbrev pub palette_bytes : PixelFormat → List ℕ → List ℕ
palette_bytes f [] = []
palette_bytes f (v ∷ palette) = wire_bytes f v ++ palette_bytes f palette

abbrev pub AreWirePixels : PixelFormat → List ℕ → Type 0
AreWirePixels f [] = Unit {0}
AreWirePixels f (v ∷ palette) = IsWirePixel f v × AreWirePixels f palette

pub pull_pixels-palette_bytes :
    (f : PixelFormat) (palette rest : List ℕ)
    → AreWirePixels f palette
    → pull_pixels f (length palette) (palette_bytes f palette ++ rest)
      ≡ some (map (colour_of f) palette, rest)
unfolding pull_pixels
pull_pixels-palette_bytes f [] rest h = refl
pull_pixels-palette_bytes f (v ∷ palette) rest h = rw (
  pull_pixels,
  append_assoc (wire_bytes f v) (palette_bytes f palette) rest,
  pull_pixel-wire_bytes f v (palette_bytes f palette ++ rest) h.0,
  pull_pixels-palette_bytes f palette rest h.1,
)

high_bit_table : all_below 256 (λ x. bit_and x 0x80 == (if ltb x 128 then 0 else 128)) ≡ true
unfolding all_below
high_bit_table = refl

high_bit : (x : ℕ) → x < 256 → bit_and x 0x80 ≡ (if ltb x 128 then 0 else 128)
high_bit x h = (==_iff _ _).0 (all_below_sound 256 _ x high_bit_table h)

pub index_run-bytes :
    (i n : ℕ) (rest : List ℕ)
    → i < 128
    → 1 ≤ n
    → n < 2 ^ 31
    → (n ≢ 1)
    → index_run (128 + i) (run_bytes n ++ rest) ≡ run_of n rest
unfolding index_run
index_run-bytes i n rest h k s ne =
    let e : (bit_and (128 + i) 0x80 == 0) ≡ false = ground (arith, high_bit (128 + i)) in
    rw (e, index_run) (read_run-run_bytes n rest k s)

pub index_run-single : (i : ℕ) (rest : List ℕ) → i < 128 → index_run i rest ≡ run_of 1 rest
unfolding index_run
index_run-single i rest h =
    let e : (bit_and i 0x80 == 0) ≡ true = ground (arith, high_bit i) in rw (e, index_run) refl
