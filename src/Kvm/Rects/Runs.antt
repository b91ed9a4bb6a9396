-- ===== src/Kvm/Rects/Runs.antt =====
-- kvm/src/kvm_codec.cpp: the run-length subencodings read back what an encoder of runs writes.
use mesh_commander.Kvm.Tiles.{
  palette_rle_tile, palette_rle_from, index_run, pixels, before, rle_from, decode_rle_inner, run_of,
}
use mesh_commander.Kvm.Codec.{PixelFormat, RectHeader}
use mesh_commander.Prelude.{
  bit_and, get_elem?, length-map, ℕ, zero, suc, ◌+◌, ◌-◌, ◌*◌, ◌^◌, ◌≤◌, ◌<◌, min, ◌≡◌, refl, ◌∙◌,
  inl, inr, true, false, ◌&&◌, List, [], ◌∷◌, ◌++◌, some, map, leb, ◌==◌, if◌then◌else◌, length,
  get_or, Bool-cases, arith, bit_and_mask, ==_iff, replicate,
}
use mesh_commander.Kvm.Rects.Wire.{
  IsWirePixel, wire_bytes, colour_of, run_bytes, pull_pixel-wire_bytes, read_run-run_bytes,
  palette_bytes, AreWirePixels, pull_pixels-palette_bytes, index_run-bytes, index_run-single,
}

-- Runs of one wire pixel each: how they are written, and what they show.
abbrev pub runs_bytes : PixelFormat → List (ℕ × ℕ) → List ℕ
runs_bytes f [] = []
runs_bytes f ((v, n) ∷ runs) = wire_bytes f v ++ (run_bytes n ++ runs_bytes f runs)

abbrev pub runs_colours : PixelFormat → List (ℕ × ℕ) → List ℕ
runs_colours f [] = []
runs_colours f ((v, n) ∷ runs) = replicate n (colour_of f v) ++ runs_colours f runs

abbrev pub AreRuns : PixelFormat → List (ℕ × ℕ) → Type 0
AreRuns f [] = Unit {0}
AreRuns f ((v, n) ∷ runs) = IsWirePixel f v × (1 ≤ n) × AreRuns f runs

abbrev pub total : List (ℕ × ℕ) → ℕ
total [] = 0
total ((v, n) ∷ runs) = n + total runs

rle_from-runs_bytes :
    (f : PixelFormat) (runs : List (ℕ × ℕ)) (i fuel left : ℕ)
    → AreRuns f runs
    → left ≡ total runs
    → left ≤ fuel
    → i + left < 2 ^ 31
    → rle_from f i fuel left (runs_bytes f runs) ≡ pixels (runs_colours f runs)
unfolding rle_from before
rle_from-runs_bytes f [] i fuel zero h e k s = refl
rle_from-runs_bytes f [] i fuel (suc left) h e k s = absurd (omega arith)
rle_from-runs_bytes f ((v, n) ∷ runs) i fuel zero h e k s = absurd (omega (arith, h.1))
rle_from-runs_bytes f ((v, n) ∷ runs) i zero (suc left) h e k s = absurd (omega arith)
rle_from-runs_bytes f ((v, n) ∷ runs) i (suc fuel) (suc left) h e k s =
    let rest : List ℕ = runs_bytes f runs in
    let pulled = pull_pixel-wire_bytes f v (run_bytes n ++ rest) h.0 in
    let run = read_run-run_bytes n rest h.1 (omega arith) in
    let fits : leb (2 ^ 31) (i + n) ≡ false = ground arith in
    let m : min n (suc left) ≡ n = omega arith in
    let ih =
      rle_from-runs_bytes f runs (i + n) fuel (suc left - n) h.2 (omega arith) (omega (arith, h.1))
        (omega arith) in
    rw (rle_from, pulled, run, fits, m, ih) refl

-- Runs of wire pixels, each of one pixel at least and together as long as the rectangle, which
-- has fewer than 2^31 pixels, are decoded back to their colours from subencoding 128.
pub decode-runs_bytes :
    (f : PixelFormat) (runs : List (ℕ × ℕ)) (rect : RectHeader)
    → AreRuns f runs
    → total runs ≡ rect.w * rect.h
    → rect.w * rect.h < 2 ^ 31
    → decode_rle_inner (runs_bytes f runs) 128 rect f ≡ pixels (runs_colours f runs)
unfolding decode_rle_inner
decode-runs_bytes f runs rect h e small =
    rle_from-runs_bytes f runs 0 (rect.w * rect.h) (rect.w * rect.h) h (omega arith) (omega arith)
      (omega (arith, small))

-- Runs of the entries of a palette: a single pixel has no length behind it.
abbrev pub indices_bytes : List (ℕ × ℕ) → List ℕ
indices_bytes [] = []
indices_bytes ((i, n) ∷ runs) =
    (if n == 1 then i ∷ [] else (128 + i) ∷ run_bytes n) ++ indices_bytes runs

abbrev pub indices_colours : List ℕ → List (ℕ × ℕ) → List ℕ
indices_colours palette [] = []
indices_colours palette ((i, n) ∷ runs) =
    replicate n (get_or palette i 0) ++ indices_colours palette runs

abbrev pub AreIndices : ℕ → List (ℕ × ℕ) → Type 0
AreIndices size [] = Unit {0}
AreIndices size ((i, n) ∷ runs) = (i < size) × (1 ≤ n) × AreIndices size runs

get_elem?-get_or : (xs : List ℕ) (i : ℕ) → i < length xs → get_elem? xs i ≡ some (get_or xs i 0)
get_elem?-get_or [] i h = absurd (omega arith)
get_elem?-get_or (x ∷ xs) zero h = refl
get_elem?-get_or (x ∷ xs) (suc i) h = get_elem?-get_or xs i (omega arith)

-- One entry, whichever way it is written.
palette_rle_from-entry :
    (palette : List ℕ) (index j run i fuel left : ℕ) (p rest : List ℕ)
    → bit_and index 0x7F ≡ j
    → j < length palette
    → i + run < 2 ^ 31
    → index_run index p ≡ run_of run rest
    → palette_rle_from palette i (suc fuel) (suc left) (index ∷ p)
      ≡ before (replicate (min run (suc left)) (get_or palette j 0)) (
          palette_rle_from palette
            (i + min run (suc left))
            fuel
            (suc left - min run (suc left))
            rest)
unfolding palette_rle_from
palette_rle_from-entry palette index j run i fuel left p rest low h s e =
    let inside : leb (length palette) (bit_and index 0x7F) ≡ false = ground (arith, low) in
    let found : get_elem? palette (bit_and index 0x7F) ≡ some (get_or palette j 0) =
      rw low (get_elem?-get_or palette j h) in
    let fits : leb (2 ^ 31) (i + run) ≡ false = ground arith in
    rw (inside, found, e, fits, palette_rle_from) refl

palette_rle_from-run :
    (palette : List ℕ) (j n i fuel left : ℕ) (rest : List ℕ)
    → j < length palette
    → length palette < 128
    → 1 ≤ n
    → i + n < 2 ^ 31
    → palette_rle_from palette i
        (suc fuel)
        (suc left)
        ((if n == 1 then j ∷ [] else (128 + j) ∷ run_bytes n) ++ rest)
      ≡ before
          (replicate (min n (suc left)) (get_or palette j 0))
          (palette_rle_from palette (i + min n (suc left)) fuel (suc left - min n (suc left)) rest)
palette_rle_from-run palette j n i fuel left rest h k l s = elim (Bool-cases (n == 1)) [
  | inl e ↦
      let one : n ≡ 1 = (==_iff n 1).0 e in
      rw one (
        palette_rle_from-entry palette j j 1 i fuel left rest rest (omega (arith, bit_and_mask 7 j))
          h (omega arith) (index_run-single j rest (omega arith)))
  | inr e ↦ rw e (
      palette_rle_from-entry palette (128 + j) j n i fuel left (run_bytes n ++ rest) rest
        (omega (arith, bit_and_mask 7 (128 + j))) h s
        (index_run-bytes j n rest (omega arith) l (omega arith) (ground (arith, e))))
]

palette_rle_from-indices_bytes :
    (palette : List ℕ) (runs : List (ℕ × ℕ)) (i fuel left : ℕ)
    → length palette < 128
    → AreIndices (length palette) runs
    → left ≡ total runs
    → left ≤ fuel
    → i + left < 2 ^ 31
    → palette_rle_from palette i fuel left (indices_bytes runs)
      ≡ pixels (indices_colours palette runs)
unfolding palette_rle_from before
palette_rle_from-indices_bytes palette [] i fuel zero s h e k b = refl
palette_rle_from-indices_bytes palette [] i fuel (suc left) s h e k b = absurd (omega arith)
palette_rle_from-indices_bytes palette ((j, n) ∷ runs) i fuel zero s h e k b =
    absurd (omega (arith, h.1))
palette_rle_from-indices_bytes palette ((j, n) ∷ runs) i zero (suc left) s h e k b =
    absurd (omega arith)
palette_rle_from-indices_bytes palette ((j, n) ∷ runs) i (suc fuel) (suc left) s h e k b =
    let m : min n (suc left) ≡ n = omega arith in
    let ih =
      palette_rle_from-indices_bytes palette runs (i + n) fuel (suc left - n) s h.2 (omega arith)
        (omega (arith, h.1)) (omega arith) in
    palette_rle_from-run palette j n i fuel left (indices_bytes runs) h.0 s h.1 (omega arith)
    ∙ rw (m, ih) refl

-- Runs of the entries of a palette of 2 to 127 wire pixels, each run of one pixel at least and
-- together as long as the rectangle, which has fewer than 2^31 pixels, are decoded back to
-- their colours from the palette's run-length subencoding.
pub decode-indices_bytes :
    (f : PixelFormat) (palette : List ℕ) (runs : List (ℕ × ℕ)) (rect : RectHeader)
    → 2 ≤ length palette
    → length palette < 128
    → AreWirePixels f palette
    → AreIndices (length palette) runs
    → total runs ≡ rect.w * rect.h
    → rect.w * rect.h < 2 ^ 31
    → decode_rle_inner (palette_bytes f palette ++ indices_bytes runs) (128 + length palette) rect f
      ≡ pixels (indices_colours (map (colour_of f) palette) runs)
unfolding decode_rle_inner palette_rle_tile
decode-indices_bytes f palette runs rect two size wire h e small =
    let n : ℕ = length palette in
    let e0 : (128 + n == 0) ≡ false = ground arith in
    let e1 : (128 + n == 1) ≡ false = ground arith in
    let e2 : leb 2 (128 + n) && leb (128 + n) 16 ≡ false = ground arith in
    let e3 : (128 + n == 128) ≡ false = ground arith in
    let e4 : leb 130 (128 + n) ≡ true = ground arith in
    let e5 : 128 + n - 128 ≡ n = omega arith in
    let colours : List ℕ = map (colour_of f) palette in
    let same : length colours ≡ n = length-map (colour_of f) palette in
    let s : ℕ = rect.w * rect.h in
    rw (decode_rle_inner, e0, e1, e2, e3, e4, e5)
      (rw (pull_pixels-palette_bytes f palette (indices_bytes runs) wire, palette_rle_tile)
        (palette_rle_from-indices_bytes colours runs 0 s s (omega (arith, same)) (rw same h)
          (omega arith) (omega arith) (omega (arith, small))))
