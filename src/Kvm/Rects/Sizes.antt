-- ===== src/Kvm/Rects/Sizes.antt =====
-- kvm/src/kvm_codec.cpp: the decoders of tiles end, and fill the tile.
use mesh_commander.Wire.{shr}
use mesh_commander.Kvm.Tiles.{
  decode_rle_inner, palette_rle_tile, packed_tile, solid_tile, raw_tile, palette_rle_from, Decoded,
  pixels, refused, out_of_range, overflow, out_of_fuel, before, unpack, packed_from, rle_from,
  pull_pixels, pull_pixel, read_run, index_run,
}
use mesh_commander.Kvm.Codec.{RectHeader, bytes_per_pixel, PixelFormat}
use mesh_commander.Prelude.{
  replicate, bit_and, get_elem?, ℕ, zero, suc, ◌+◌, ◌-◌, ◌*◌, ◌/◌, ◌^◌, ◌≤◌, min, ◌≡◌, refl, inl,
  inr, Bool, true, false, ◌&&◌, List, [], ◌∷◌, some, ltb, leb, ◌==◌, if◌then◌else◌, length,
  Bool-cases, Option-cases, arith, length-replicate, length-append,
}
use mesh_commander.Kvm.Rects.Lengths.{
  sum_of, RunLength-cases, read_run-le, read_run_overflows, index_run-le, index_run_overflows,
  pull_pixel-sum_of, pull_pixels-sum_of,
}

-- A tile of `n` pixels, or one of the ways not to give one; not a loop that was cut off, and an int
-- that overflows only if `b`, which bounds all of them, does.
abbrev pub IsFilled : ℕ → ℕ → Decoded → Type 0
IsFilled b n (pixels out) = length out ≡ n
IsFilled b n refused = Unit {0}
IsFilled b n out_of_range = Unit {0}
IsFilled b n overflow = 2 ^ 31 ≤ b
IsFilled b n out_of_fuel = ⊥

before-IsFilled :
    (out : List ℕ) (d : Decoded) (b n m : ℕ)
    → IsFilled b m d
    → length out + m ≡ n
    → IsFilled b n (before out d)
unfolding before
before-IsFilled out (pixels rest) b n m h e = omega (arith, length-append out rest)
before-IsFilled out refused b n m h e = tt
before-IsFilled out out_of_range b n m h e = tt
before-IsFilled out overflow b n m h e = h
before-IsFilled out out_of_fuel b n m h e = h

length-unpack :
    (palette : List ℕ) (br bm v slots left : ℕ) {cs : List ℕ}
    → unpack palette br bm v slots left ≡ some cs
    → length cs ≡ min slots left
unfolding unpack
length-unpack palette br bm v zero left h = ground arith
length-unpack palette br bm v (suc slots) zero h = ground arith
length-unpack palette br bm v (suc slots) (suc left) h =
    elim (Option-cases (get_elem? palette (bit_and (shr v (slots * br)) bm))) [
      | inl e ↦ absurd (ground (arith, e))
      | inr (c, e) ↦ elim (Option-cases (unpack palette br bm v slots left)) [
        | inl e' ↦ absurd (ground (arith, e, e'))
        | inr (cs, e') ↦ ground (arith, e, e', length-unpack palette br bm v slots left e')
      ]
    ]

pub length-pull_pixels :
    (f : PixelFormat) (n : ℕ) (p : List ℕ) {cs q : List ℕ}
    → pull_pixels f n p ≡ some (cs, q)
    → length cs ≡ n
unfolding pull_pixels
length-pull_pixels f zero p h = ground arith
length-pull_pixels f (suc n) p h = elim (Option-cases (pull_pixel f p)) [
  | inl e ↦ absurd (ground (arith, e))
  | inr ((c, q), e) ↦ elim (Option-cases (pull_pixels f n q)) [
    | inl e' ↦ absurd (ground (arith, e, e'))
    | inr ((cs, r), e') ↦ ground (arith, e, e', length-pull_pixels f n q e')
  ]
]

packed_from-IsFilled :
    (b : ℕ) (palette : List ℕ) (br bm : ℕ) (p : List ℕ) (left : ℕ)
    → IsFilled b left (packed_from palette br bm p left)
unfolding packed_from
packed_from-IsFilled b palette br bm [] zero = refl
packed_from-IsFilled b palette br bm [] (suc left) = tt
packed_from-IsFilled b palette br bm (v ∷ p) zero = refl
packed_from-IsFilled b palette br bm (v ∷ p) (suc left) =
    elim (Option-cases (unpack palette br bm v (8 / br) (suc left))) [
      | inl e ↦ rw (e, packed_from) tt
      | inr (cs, e) ↦
          rw (e, packed_from)
            (before-IsFilled cs _ b (suc left) (suc left - length cs)
              (packed_from-IsFilled b palette br bm p (suc left - length cs))
              (omega (arith, length-unpack palette br bm v (8 / br) (suc left) e)))
    ]

rle_from-IsFilled :
    (b : ℕ) (f : PixelFormat) (i fuel left : ℕ) (p : List ℕ)
    → left ≤ fuel
    → i + left + sum_of p ≤ b
    → IsFilled b left (rle_from f i fuel left p)
unfolding rle_from
rle_from-IsFilled b f i fuel zero p h k = refl
rle_from-IsFilled b f i zero (suc left) p h k = absurd (omega arith)
rle_from-IsFilled b f i (suc fuel) (suc left) p h k = elim (Option-cases (pull_pixel f p)) [
  | inl e ↦ rw (e, rle_from) tt
  | inr ((c, q), e) ↦
      let less = pull_pixel-sum_of f p e in
      rw (e, rle_from)
        (elim (RunLength-cases (read_run 1 q)) [
          | inl e' ↦ rw e' tt
          | inr (inl e') ↦ rw e' (omega (arith, read_run_overflows 1 q e'))
          | inr (inr (run, r, e')) ↦
              let le = read_run-le 1 q run r e' in
              rw e' (elim (Bool-cases (leb (2 ^ 31) (i + run))) [
                | inl over ↦ rw over (ground (arith, le.1))
                | inr fits ↦ rw fits (
                    before-IsFilled (replicate (min run (suc left)) c) _ b (suc left)
                      (suc left - min run (suc left))
                      (rle_from-IsFilled b f (i + min run (suc left)) fuel
                        (suc left - min run (suc left)) r (omega (arith, le.0))
                        (omega (arith, le.1)))
                      (omega (arith, length-replicate (min run (suc left)) c)))
              ])
        ])
]

palette_rle_from-IsFilled :
    (b : ℕ) (palette : List ℕ) (i fuel left : ℕ) (p : List ℕ)
    → left ≤ fuel
    → i + left + sum_of p ≤ b
    → IsFilled b left (palette_rle_from palette i fuel left p)
unfolding palette_rle_from
palette_rle_from-IsFilled b palette i fuel zero p h k = refl
palette_rle_from-IsFilled b palette i zero (suc left) p h k = absurd (omega arith)
palette_rle_from-IsFilled b palette i (suc fuel) (suc left) [] h k = tt
palette_rle_from-IsFilled b palette i (suc fuel) (suc left) (index ∷ p) h k =
    elim (Bool-cases (leb (length palette) (bit_and index 0x7F))) [
      | inl e ↦ rw (e, palette_rle_from) tt
      | inr e ↦ elim (Option-cases (get_elem? palette (bit_and index 0x7F))) [
        | inl e0 ↦ rw (e, e0, palette_rle_from) tt
        | inr (c, e0) ↦
            rw (e, e0, palette_rle_from)
              (elim (RunLength-cases (index_run index p)) [
                | inl e' ↦ rw e' tt
                | inr (inl e') ↦ rw e' (omega (arith, index_run_overflows index p e'))
                | inr (inr (run, r, e')) ↦
                    let le = index_run-le index p run r e' in
                    rw e' (elim (Bool-cases (leb (2 ^ 31) (i + run))) [
                      | inl over ↦ rw over (ground (arith, le.1))
                      | inr fits ↦ rw fits (
                          before-IsFilled (replicate (min run (suc left)) c) _ b (suc left)
                            (suc left - min run (suc left))
                            (palette_rle_from-IsFilled b palette (i + min run (suc left)) fuel
                              (suc left - min run (suc left)) r (omega (arith, le.0))
                              (omega (arith, le.1)))
                            (omega (arith, length-replicate (min run (suc left)) c)))
                    ])
              ])
      ]
    ]

module _ (f : PixelFormat) where
  raw_tile-IsFilled : (b s : ℕ) (p : List ℕ) → IsFilled b s (raw_tile f s p)
  unfolding raw_tile
  raw_tile-IsFilled b s p = elim (Bool-cases (ltb (length p) (s * bytes_per_pixel f))) [
    | inl e ↦ rw (e, raw_tile) tt
    | inr e ↦ elim (Option-cases (pull_pixels f s p)) [
      | inl e' ↦ rw (e, e', raw_tile) tt
      | inr ((cs, q), e') ↦ rw (e, e', raw_tile) (length-pull_pixels f s p e')
    ]
  ]

  solid_tile-IsFilled : (b s : ℕ) (p : List ℕ) → IsFilled b s (solid_tile f s p)
  unfolding solid_tile
  solid_tile-IsFilled b s p = elim (Option-cases (pull_pixel f p)) [
    | inl e ↦ rw (e, solid_tile) tt
    | inr ((c, q), e) ↦ rw (e, solid_tile) (length-replicate s c)
  ]

  packed_tile-IsFilled : (b n s : ℕ) (p : List ℕ) → IsFilled b s (packed_tile f n s p)
  unfolding packed_tile
  packed_tile-IsFilled b n s p = elim (Option-cases (pull_pixels f n p)) [
    | inl e ↦ rw (e, packed_tile) tt
    | inr ((palette, q), e) ↦ rw (e, packed_tile) (packed_from-IsFilled b palette _ _ q s)
  ]

  palette_rle_tile-IsFilled :
      (n s : ℕ) (p : List ℕ) → IsFilled (s + sum_of p) s (palette_rle_tile f n s p)
  unfolding palette_rle_tile
  palette_rle_tile-IsFilled n s p = elim (Option-cases (pull_pixels f n p)) [
    | inl e ↦ rw (e, palette_rle_tile) tt
    | inr ((palette, q), e) ↦
        rw (e, palette_rle_tile)
          (palette_rle_from-IsFilled (s + sum_of p) palette 0 s s q (omega arith)
            (omega (arith, pull_pixels-sum_of f n p e)))
  ]

  if-IsFilled :
      (b n : ℕ) (test : Bool) (d e : Decoded)
      → IsFilled b n d
      → IsFilled b n e
      → IsFilled b n (if test then d else e)
  if-IsFilled b n true d e h k = h
  if-IsFilled b n false d e h k = k

  -- Whatever the payload and the subencoding, each loop of decodeRleInner comes to its end
  -- within its fuel, pixels that it gives are exactly as many as the rectangle has, and a run's
  -- length or the position behind it outgrows an int only if the rectangle's pixels and the
  -- payload's bytes added up come to 2^31 at least.
  pub decode_rle_inner-IsFilled :
      (payload : List ℕ) (subenc : ℕ) (rect : RectHeader)
      → IsFilled
          (rect.w * rect.h + sum_of payload)
          (rect.w * rect.h)
          (decode_rle_inner payload subenc rect f)
  unfolding decode_rle_inner
  decode_rle_inner-IsFilled payload subenc rect =
      let s : ℕ = rect.w * rect.h in
      let b : ℕ = s + sum_of payload in
      if-IsFilled b s (subenc == 0) _ _ (raw_tile-IsFilled b s payload) (
        if-IsFilled b s (subenc == 1) _ _ (solid_tile-IsFilled b s payload) (
          if-IsFilled b s (leb 2 subenc && leb subenc 16) _ _
            (packed_tile-IsFilled b subenc s payload)
            (if-IsFilled b s (subenc == 128) _ _
              (rle_from-IsFilled b f 0 s s payload (omega arith) (omega arith))
              (if-IsFilled b s (leb 130 subenc) _ _
                (palette_rle_tile-IsFilled (subenc - 128) s payload) tt))))
