-- ===== src/Kvm/Tiles.antt =====
-- kvm/src/kvm_codec.cpp: decodeRleInner, the inside of a run-length tile. The read position `p` of the
-- code is the list of the bytes behind it. The pixels are written from the first on, so the vector that
-- is filled is the list of pixels written; on failure the code throws it away. A run's length and the
-- position behind the run are ints in the code: a result of their own stands for a sum that no int
-- holds.
use mesh_commander.Prelude.{
  ℕ, zero, suc, ◌+◌, ◌-◌, ◌*◌, ◌/◌, ◌^◌, min, ◌&&◌, List, [], ◌∷◌, ◌++◌, Option, none, some, ltb,
  leb, ◌==◌, true, false, if◌then◌else◌, length, get_elem?, replicate, bit_and, bit_or,
}
use mesh_commander.Wire.{shl, shr}
use mesh_commander.Kvm.Codec.{
  PixelFormat, rgb565, rgb332, bytes_per_pixel, rgb565_to_argb, rgb332_to_argb, RectHeader,
}

-- What decodeRleInner does: true with the pixels, false, a read behind the end of the palette or an
-- int that overflows (both of which C++ leaves undefined), or, for the loops here, that their fuel
-- ran out.
pub data Decoded : Type 0 where
  pixels : List ℕ → Decoded
  refused out_of_range overflow out_of_fuel : Decoded

-- The pixels in front of what a later part of a loop decodes.
unfoldable pub before : List ℕ → Decoded → Decoded
before out (pixels rest) = pixels (out ++ rest)
before out refused = refused
before out out_of_range = out_of_range
before out overflow = overflow
before out out_of_fuel = out_of_fuel

-- The lambda pullPixel.
unfoldable pub pull_pixel : PixelFormat → List ℕ → Option (ℕ × List ℕ)
unfolding rgb565_to_argb rgb332_to_argb
pull_pixel rgb565 [] = none
pull_pixel rgb565 (a ∷ []) = none
pull_pixel rgb565 (a ∷ b ∷ p) = some (rgb565_to_argb (bit_or a (shl b 8)), p)
pull_pixel rgb332 [] = none
pull_pixel rgb332 (a ∷ p) = some (rgb332_to_argb a, p)

-- `n` pixels one after the other.
unfoldable pub pull_pixels : PixelFormat → ℕ → List ℕ → Option (List ℕ × List ℕ)
unfolding pull_pixel
pull_pixels f zero p = some ([], p)
pull_pixels f (suc n) p = elim (pull_pixel f p) [
  | none ↦ none
  | some (c, q) ↦ elim (pull_pixels f n q) [ none ↦ none | some (cs, r) ↦ some (c ∷ cs, r) ]
]

-- A run's length with the bytes behind it, or that the bytes end in front of its end, or that it
-- outgrows an int.
pub data RunLength : Type 0 where
  run_of : ℕ → List ℕ → RunLength
  run_missing run_overflow : RunLength

-- The bytes of a run's length: 255 means that another follows.
unfoldable pub read_run : ℕ → List ℕ → RunLength
read_run run [] = run_missing
read_run run (delta ∷ p) = elim (leb (2 ^ 31) (run + delta)) [
  | true ↦ run_overflow
  | false ↦ elim (delta == 0xFF) [
    | true ↦ read_run (run + delta) p
    | false ↦ run_of (run + delta) p
  ]
]

-- The indices of one byte, from its high bits: `slots` of them, and `left` pixels at most. `none` is
-- an index that the palette does not have.
unfoldable pub unpack : List ℕ → ℕ → ℕ → ℕ → ℕ → ℕ → Option (List ℕ)
unpack palette br bm v zero left = some []
unpack palette br bm v (suc slots) zero = some []
unpack palette br bm v (suc slots) (suc left) =
    elim (get_elem? palette (bit_and (shr v (slots * br)) bm)) [
      | none ↦ none
      | some c ↦ elim (unpack palette br bm v slots left) [ none ↦ none | some cs ↦ some (c ∷ cs) ]
    ]

-- The loop over the packed bytes.
unfoldable pub packed_from : List ℕ → ℕ → ℕ → List ℕ → ℕ → Decoded
unfolding unpack before
packed_from palette br bm [] zero = pixels []
packed_from palette br bm [] (suc left) = refused
packed_from palette br bm (v ∷ p) zero = pixels []
packed_from palette br bm (v ∷ p) (suc left) = elim (unpack palette br bm v (8 / br) (suc left)) [
  | none ↦ out_of_range
  | some cs ↦ before cs (packed_from palette br bm p (suc left - length cs))
]

-- The loop of subencoding 128, with `i` pixels written and `left` more to write. A round writes one
-- pixel at least, so fuel for each pixel is enough.
unfoldable pub rle_from : PixelFormat → ℕ → ℕ → ℕ → List ℕ → Decoded
unfolding pull_pixel read_run before
rle_from f i fuel zero p = pixels []
rle_from f i zero (suc left) p = out_of_fuel
rle_from f i (suc fuel) (suc left) p = elim (pull_pixel f p) [
  | none ↦ refused
  | some (c, q) ↦ elim (read_run 1 q) [
    | run_missing ↦ refused
    | run_overflow ↦ overflow
    | run_of run r ↦ elim (leb (2 ^ 31) (i + run)) [
      | true ↦ overflow
      | false ↦
          before (replicate (min run (suc left)) c)
            (rle_from f (i + min run (suc left)) fuel (suc left - min run (suc left)) r)
    ]
  ]
]

unfoldable pub index_run : ℕ → List ℕ → RunLength
unfolding read_run
index_run index p = if bit_and index 0x80 == 0 then run_of 1 p else read_run 1 p

-- The loop of the subencodings from 130 on.
unfoldable pub palette_rle_from : List ℕ → ℕ → ℕ → ℕ → List ℕ → Decoded
unfolding index_run before
palette_rle_from palette i fuel zero p = pixels []
palette_rle_from palette i zero (suc left) p = out_of_fuel
palette_rle_from palette i (suc fuel) (suc left) [] = refused
palette_rle_from palette i (suc fuel) (suc left) (index ∷ p) =
    elim (leb (length palette) (bit_and index 0x7F)) [
      | true ↦ refused
      | false ↦ elim (get_elem? palette (bit_and index 0x7F)) [
        | none ↦ out_of_range
        | some c ↦ elim (index_run index p) [
          | run_missing ↦ refused
          | run_overflow ↦ overflow
          | run_of run r ↦ elim (leb (2 ^ 31) (i + run)) [
            | true ↦ overflow
            | false ↦ before (replicate (min run (suc left)) c) (
                palette_rle_from palette (i + min run (suc left)) fuel
                  (suc left - min run (suc left)) r)
          ]
        ]
      ]
    ]

-- `br` and `bm` of a palette's size.
unfoldable pub index_bits : ℕ → ℕ
index_bits subenc = if subenc == 2 then 1 else if leb subenc 4 then 2 else 4

unfoldable pub index_mask : ℕ → ℕ
index_mask subenc = if subenc == 2 then 0x01 else if leb subenc 4 then 0x03 else 0x0F

unfoldable pub raw_tile : PixelFormat → ℕ → List ℕ → Decoded
unfolding pull_pixels bytes_per_pixel
raw_tile f s p =
    if ltb (length p) (s * bytes_per_pixel f)
    then refused
    else elim (pull_pixels f s p) [ none ↦ refused | some (cs, q) ↦ pixels cs ]

unfoldable pub solid_tile : PixelFormat → ℕ → List ℕ → Decoded
unfolding pull_pixel
solid_tile f s p = elim (pull_pixel f p) [ none ↦ refused | some (c, q) ↦ pixels (replicate s c) ]

unfoldable pub packed_tile : PixelFormat → ℕ → ℕ → List ℕ → Decoded
unfolding pull_pixels index_bits index_mask packed_from
packed_tile f subenc s p = elim (pull_pixels f subenc p) [
  | none ↦ refused
  | some (palette, q) ↦ packed_from palette (index_bits subenc) (index_mask subenc) q s
]

unfoldable pub palette_rle_tile : PixelFormat → ℕ → ℕ → List ℕ → Decoded
unfolding pull_pixels palette_rle_from
palette_rle_tile f size s p = elim (pull_pixels f size p) [
  | none ↦ refused
  | some (palette, q) ↦ palette_rle_from palette 0 s s q
]

-- decodeRleInner. `s` is an int in the code: its callers are reached only through tryDecodeRect, which
-- bounds both sides by 4096 first.
unfoldable pub decode_rle_inner : List ℕ → ℕ → RectHeader → PixelFormat → Decoded
unfolding raw_tile solid_tile packed_tile rle_from palette_rle_tile
decode_rle_inner payload subenc rect f =
    let s : ℕ = rect.w * rect.h in
    if subenc == 0
    then raw_tile f s payload
    else if subenc == 1
    then solid_tile f s payload
    else if leb 2 subenc && leb subenc 16
    then packed_tile f subenc s payload
    else if subenc == 128
    then rle_from f 0 s s payload
    else if leb 130 subenc
    then palette_rle_tile f (subenc - 128) s payload
    else refused
