-- ===== src/Kvm/Rects/Ranges.antt =====
-- kvm/src/kvm_codec.cpp: when the packed palette of a tile is read behind its end.
use mesh_commander.Kvm.Tiles.{
  Decoded, pixels, refused, out_of_range, overflow, RunLength, run_of, run_missing, run_overflow,
  out_of_fuel, before, unpack, packed_from, rle_from, palette_rle_from, pull_pixels, raw_tile,
  solid_tile, packed_tile, palette_rle_tile, decode_rle_inner, pull_pixel, read_run, index_run,
  index_bits, index_mask,
}
use mesh_commander.Kvm.Codec.{
  rgb565, rgb332, rgb332_to_argb, rgb565_to_argb, PixelFormat, RectHeader, bytes_per_pixel,
}
use mesh_commander.Kvm.Rects.Sizes.{length-pull_pixels}
use mesh_commander.Prelude.{
  bit_or, ℕ, zero, suc, ◌+◌, ◌^◌, ◌-◌, ◌*◌, ◌/◌, ◌≤◌, ◌<◌, min, ◌≡◌, refl, ap, ◌∙◌, ◌⊎◌, inl, inr,
  Bool, true, false, ◌&&◌, List, [], ◌∷◌, ◌++◌, none, some, ltb, leb, ◌==◌, if◌then◌else◌, length,
  Bool-cases, Option-cases, arith, bit_and, get_elem?, bit_and_mask,
}
use mesh_commander.Wire.{shl, shr}

abbrev pub InRange : Decoded → Type 0
InRange out_of_range = ⊥
InRange (pixels out) = Unit {0}
InRange refused = Unit {0}
InRange overflow = Unit {0}
InRange out_of_fuel = Unit {0}

before-InRange : (out : List ℕ) (d : Decoded) → InRange d → InRange (before out d)
unfolding before
before-InRange out (pixels rest) h = tt
before-InRange out refused h = tt
before-InRange out overflow h = tt
before-InRange out out_of_range h = h
before-InRange out out_of_fuel h = tt

if-InRange : (b : Bool) (d e : Decoded) → InRange d → InRange e → InRange (if b then d else e)
if-InRange true d e h k = h
if-InRange false d e h k = k

get_elem?-lt {ℓ} :
    {A : Type ℓ} (xs : List A) (i : ℕ) → i < length xs → (a : A) × (get_elem? xs i ≡ some a)
get_elem?-lt [] i h = absurd (omega arith)
get_elem?-lt (x ∷ xs) zero h = (x, refl)
get_elem?-lt (x ∷ xs) (suc i) h = get_elem?-lt xs i (omega arith)

-- A palette with an entry for each value of the mask.
unpack_total :
    (palette : List ℕ) (br bm v slots left : ℕ)
    → ((x : ℕ) → bit_and x bm < length palette)
    → (cs : List ℕ) × (unpack palette br bm v slots left ≡ some cs)
unfolding unpack
unpack_total palette br bm v zero left h = ([], refl)
unpack_total palette br bm v (suc slots) zero h = ([], refl)
unpack_total palette br bm v (suc slots) (suc left) h =
    let found = get_elem?-lt palette (bit_and (shr v (slots * br)) bm) (h (shr v (slots * br))) in
    let rest = unpack_total palette br bm v slots left h in
    (found.0 ∷ rest.0, rw (found.1, rest.1, unpack))

packed_from-InRange :
    (palette : List ℕ) (br bm : ℕ) (p : List ℕ) (left : ℕ)
    → ((x : ℕ) → bit_and x bm < length palette)
    → InRange (packed_from palette br bm p left)
unfolding packed_from
packed_from-InRange palette br bm [] zero h = tt
packed_from-InRange palette br bm [] (suc left) h = tt
packed_from-InRange palette br bm (v ∷ p) zero h = tt
packed_from-InRange palette br bm (v ∷ p) (suc left) h =
    let cs = unpack_total palette br bm v (8 / br) (suc left) h in
    rw (cs.1, packed_from)
      (before-InRange cs.0 _ (packed_from-InRange palette br bm p (suc left - length cs.0) h))

-- What stands behind a run's length, or behind one of the ways not to read it.
run-InRange :
    (x : RunLength) (over : ℕ → Bool) (d : ℕ → List ℕ → Decoded)
    → ((n : ℕ) (q : List ℕ) → InRange (d n q))
    → InRange (elim x [
      | run_missing ↦ refused
      | run_overflow ↦ overflow
      | run_of n q ↦ elim (over n) [ true ↦ overflow | false ↦ d n q ]
    ])
run-InRange run_missing over d h = tt
run-InRange run_overflow over d h = tt
run-InRange (run_of n q) over d h = elim (Bool-cases (over n)) [
  | inl e ↦ rw e tt
  | inr e ↦ rw e (h n q)
]

rle_from-InRange :
    (f : PixelFormat) (i fuel left : ℕ) (p : List ℕ) → InRange (rle_from f i fuel left p)
unfolding rle_from
rle_from-InRange f i fuel zero p = tt
rle_from-InRange f i zero (suc left) p = tt
rle_from-InRange f i (suc fuel) (suc left) p = elim (Option-cases (pull_pixel f p)) [
  | inl e ↦ rw (e, rle_from) tt
  | inr ((c, q), e) ↦
      rw (e, rle_from)
        (run-InRange (read_run 1 q) (λ n. leb (2 ^ 31) (i + n)) _
          (λ n r.
            before-InRange _ _
              (rle_from-InRange f (i + min n (suc left)) fuel (suc left - min n (suc left)) r)))
]

-- An index that the guard lets through has an entry.
palette_rle_from-InRange :
    (palette : List ℕ) (i fuel left : ℕ) (p : List ℕ)
    → InRange (palette_rle_from palette i fuel left p)
unfolding palette_rle_from
palette_rle_from-InRange palette i fuel zero p = tt
palette_rle_from-InRange palette i zero (suc left) p = tt
palette_rle_from-InRange palette i (suc fuel) (suc left) [] = tt
palette_rle_from-InRange palette i (suc fuel) (suc left) (index ∷ p) =
    elim (Bool-cases (leb (length palette) (bit_and index 0x7F))) [
      | inl e ↦ rw (e, palette_rle_from) tt
      | inr e ↦
          let found = get_elem?-lt palette (bit_and index 0x7F) (ground (arith, e)) in
          rw (e, found.1, palette_rle_from)
            (run-InRange (index_run index p) (λ n. leb (2 ^ 31) (i + n)) _
              (λ n r. before-InRange _ _ (
                palette_rle_from-InRange palette (i + min n (suc left)) fuel
                  (suc left - min n (suc left)) r)))
    ]

mask-le : (subenc x : ℕ) → bit_and x (index_mask subenc) ≤ index_mask subenc
unfolding index_mask
mask-le subenc x = ground (arith, bit_and_mask 1 x, bit_and_mask 2 x, bit_and_mask 4 x)

module _ (f : PixelFormat) where
  packed_tile-InRange : (n s : ℕ) (p : List ℕ) → index_mask n < n → InRange (packed_tile f n s p)
  unfolding packed_tile
  packed_tile-InRange n s p h = elim (Option-cases (pull_pixels f n p)) [
    | inl e ↦ rw (e, packed_tile) tt
    | inr ((palette, q), e) ↦
        rw (e, packed_tile)
          (packed_from-InRange palette _ _ q s
            (λ x. omega (arith, mask-le n x, length-pull_pixels f n p e)))
  ]

  palette_rle_tile-InRange : (n s : ℕ) (p : List ℕ) → InRange (palette_rle_tile f n s p)
  unfolding palette_rle_tile
  palette_rle_tile-InRange n s p = elim (Option-cases (pull_pixels f n p)) [
    | inl e ↦ rw (e, palette_rle_tile) tt
    | inr ((palette, q), e) ↦ rw (e, palette_rle_tile) (palette_rle_from-InRange palette 0 s s q)
  ]

  raw_tile-InRange : (s : ℕ) (p : List ℕ) → InRange (raw_tile f s p)
  unfolding raw_tile
  raw_tile-InRange s p = elim (Bool-cases (ltb (length p) (s * bytes_per_pixel f))) [
    | inl e ↦ rw (e, raw_tile) tt
    | inr e ↦ elim (Option-cases (pull_pixels f s p)) [
      | inl e' ↦ rw (e, e', raw_tile) tt
      | inr ((cs, q), e') ↦ rw (e, e', raw_tile) tt
    ]
  ]

  solid_tile-InRange : (s : ℕ) (p : List ℕ) → InRange (solid_tile f s p)
  unfolding solid_tile
  solid_tile-InRange s p = elim (Option-cases (pull_pixel f p)) [
    | inl e ↦ rw (e, solid_tile) tt
    | inr ((c, q), e) ↦ rw (e, solid_tile) tt
  ]

  -- When a subencoding from 2 to 16 has more palette entries than its index mask,
  -- decodeRleInner never reads behind the end of the palette; with any other subencoding, the
  -- run-length ones with their palette of up to 127 entries included, it never does.
  pub decode_rle_inner-InRange :
      (payload : List ℕ) (subenc : ℕ) (rect : RectHeader)
      → (2 ≤ subenc → subenc ≤ 16 → index_mask subenc < subenc)
      → InRange (decode_rle_inner payload subenc rect f)
  unfolding decode_rle_inner
  decode_rle_inner-InRange payload subenc rect h =
      let s : ℕ = rect.w * rect.h in
      if-InRange (subenc == 0) _ _ (raw_tile-InRange s payload) (
        if-InRange (subenc == 1) _ _ (solid_tile-InRange s payload)
          (elim (Bool-cases (leb 2 subenc && leb subenc 16)) [
            | inl e ↦
                rw e
                  (packed_tile-InRange subenc s payload (h (ground (arith, e)) (ground (arith, e))))
            | inr e ↦ rw e (
                if-InRange (subenc == 128) _ _ (rle_from-InRange f 0 s s payload) (
                  if-InRange (leb 130 subenc) _ _
                    (palette_rle_tile-InRange (subenc - 128) s payload) tt))
          ]))

get_elem?-none {ℓ} : {A : Type ℓ} (xs : List A) (i : ℕ) → length xs ≤ i → get_elem? xs i ≡ none
get_elem?-none [] i h = refl
get_elem?-none (x ∷ xs) zero h = absurd (omega arith)
get_elem?-none (x ∷ xs) (suc i) h = get_elem?-none xs i (omega arith)

unpack_over :
    (palette : List ℕ) (br bm slots left : ℕ)
    → length palette ≤ bit_and (shr 0xFF (slots * br)) bm
    → unpack palette br bm 0xFF (suc slots) (suc left) ≡ none
unfolding unpack
unpack_over palette br bm slots left h =
    rw (get_elem?-none palette (bit_and (shr 0xFF (slots * br)) bm) h, unpack)

-- Enough bytes for `n` pixels.
pub pull_pixels_enough :
    (f : PixelFormat) (n : ℕ) (bytes rest : List ℕ)
    → length bytes ≡ n * bytes_per_pixel f
    → (cs : List ℕ) × (pull_pixels f n (bytes ++ rest) ≡ some (cs, rest))
unfolding pull_pixels bytes_per_pixel
pull_pixels_enough f zero [] rest h = ([], refl)
pull_pixels_enough f zero (b ∷ bytes) rest h = absurd (omega arith)
pull_pixels_enough rgb565 (suc n) [] rest h = absurd (omega arith)
pull_pixels_enough rgb565 (suc n) (a ∷ []) rest h = absurd (omega arith)
pull_pixels_enough rgb565 (suc n) (a ∷ b ∷ bytes) rest h =
    let ih = pull_pixels_enough rgb565 n bytes rest (omega arith) in
    (rgb565_to_argb (bit_or a (shl b 8)) ∷ ih.0, rw (ih.1, pull_pixels))
pull_pixels_enough rgb332 (suc n) [] rest h = absurd (omega arith)
pull_pixels_enough rgb332 (suc n) (a ∷ bytes) rest h =
    let ih = pull_pixels_enough rgb332 n bytes rest (omega arith) in
    (rgb332_to_argb a ∷ ih.0, rw (ih.1, pull_pixels))

-- The widths of an index whose values go past the palette.
over_bits :
    (n : ℕ)
    → 2 ≤ n
    → n ≤ index_mask n
    → ((index_bits n ≡ 2) × (index_mask n ≡ 3)) ⊎ ((index_bits n ≡ 4) × (index_mask n ≡ 15))
unfolding index_mask index_bits
over_bits n h k = ground arith

packed_from_over :
    (palette : List ℕ) (br bm slots s : ℕ) (rest : List ℕ)
    → 8 / br ≡ suc slots
    → length palette ≤ bit_and (shr 0xFF (slots * br)) bm
    → packed_from palette br bm (0xFF ∷ rest) (suc s) ≡ out_of_range
unfolding packed_from
packed_from_over palette br bm slots s rest e h =
    let over : unpack palette br bm 0xFF (8 / br) (suc s) ≡ none =
      ap (λ k. unpack palette br bm 0xFF k (suc s)) e ∙ unpack_over palette br bm slots s h in
    rw (over, packed_from)

packed_tile_over :
    (f : PixelFormat) (n s : ℕ) (colours rest : List ℕ)
    → 2 ≤ n
    → n ≤ index_mask n
    → length colours ≡ n * bytes_per_pixel f
    → packed_tile f n (suc s) (colours ++ (0xFF ∷ rest)) ≡ out_of_range
unfolding packed_tile
packed_tile_over f n s colours rest h over size =
    let pulled = pull_pixels_enough f n colours (0xFF ∷ rest) size in
    let long = length-pull_pixels f n _ pulled.1 in
    rw (pulled.1, packed_tile)
      (elim (over_bits n h over) [
        | inl (bits, mask) ↦
            packed_from_over pulled.0 (index_bits n) (index_mask n) 3 s rest (rw bits)
              (rw (bits, mask) (omega (arith, mask, long)))
        | inr (bits, mask) ↦
            packed_from_over pulled.0 (index_bits n) (index_mask n) 1 s rest (rw bits)
              (rw (bits, mask) (omega (arith, mask, long)))
      ])

-- With a palette of 2 to 16 entries that is no larger than its index mask, the entries followed
-- by a byte 0xFF make decodeRleInner read behind the end of the palette, when the rectangle has
-- a pixel.
pub decode_rle_inner_over :
    (f : PixelFormat) (n : ℕ) (rect : RectHeader) (colours rest : List ℕ)
    → 2 ≤ n
    → n ≤ index_mask n
    → n ≤ 16
    → 1 ≤ rect.w * rect.h
    → length colours ≡ n * bytes_per_pixel f
    → decode_rle_inner (colours ++ (0xFF ∷ rest)) n rect f ≡ out_of_range
unfolding decode_rle_inner
decode_rle_inner_over f n rect colours rest h over k some_pixel size =
    let s : rect.w * rect.h ≡ suc (rect.w * rect.h - 1) = omega arith in
    let e0 : (n == 0) ≡ false = ground arith in
    let e1 : (n == 1) ≡ false = ground arith in
    let e2 : leb 2 n ≡ true = ground arith in
    let e3 : leb n 16 ≡ true = ground arith in
    rw (decode_rle_inner, e0, e1, e2, e3, s)
      (packed_tile_over f n (rect.w * rect.h - 1) colours rest h over size)
