-- ===== src/Kvm/Rects/Images.antt =====
-- kvm/src/kvm_codec.cpp: an image that tryDecodeRect gives has the rectangle's shape.
use mesh_commander.Kvm.Tiles.{
  Decoded, pixels, refused, out_of_range, overflow, out_of_fuel, pull_pixels,
}
use mesh_commander.Kvm.Rects.{
  Outcome, decoded, desktop_size, nothing, undefined, failed_with, scan_rows, make_argb_image,
  decode_raw, finish_block, compressed_block, inflated_block, decode_rle, try_decode_rect,
  uncompressed_marker, max_block,
}
use mesh_commander.Kvm.Codec.{
  PixelFormat, RectHeader, bytes_per_pixel, read32_be, enc_raw, enc_rle, enc_desktop_size,
}
use mesh_commander.Kvm.Rects.Sizes.{IsFilled, decode_rle_inner-IsFilled, length-pull_pixels}
use mesh_commander.Prelude.{
  ℕ, zero, suc, ◌+◌, ◌*◌, ◌^◌, ◌≡◌, refl, ap, inl, inr, Bool, true, false, ◌||◌, List, [], ◌∷◌,
  Option, none, some, ltb, leb, ◌==◌, if◌then◌else◌, length, get_or, Bool-cases, Option-cases,
  arith, take, drop, length-take, length-drop,
}

abbrev pub AllLong : ℕ → List (List ℕ) → Type 0
AllLong w [] = Unit {0}
AllLong w (line ∷ lines) = (length line ≡ w) × AllLong w lines

abbrev pub IsShaped : RectHeader → Outcome → Type 0
IsShaped rect (decoded image consumed) =
    (image.width ≡ rect.w)
    × (image.height ≡ rect.h)
    × (length image.scan_lines ≡ rect.h)
    × AllLong rect.w image.scan_lines
IsShaped rect desktop_size = Unit {0}
IsShaped rect nothing = Unit {0}
IsShaped rect undefined = Unit {0}
IsShaped rect (failed_with status) = Unit {0}

length-scan_rows : (h w : ℕ) (argb : List ℕ) → length (scan_rows h w argb) ≡ h
unfolding scan_rows
length-scan_rows zero w argb = refl
length-scan_rows (suc h) w argb = ap suc (length-scan_rows h w (drop w argb))

scan_rows-AllLong : (h w : ℕ) (argb : List ℕ) → length argb ≡ w * h → AllLong w (scan_rows h w argb)
unfolding scan_rows
scan_rows-AllLong zero w argb e = tt
scan_rows-AllLong (suc h) w argb e = (
  omega (arith, length-take w argb),
  scan_rows-AllLong h w (drop w argb) (omega (arith, length-drop w argb)),
)

image-IsShaped :
    (rect : RectHeader) (argb : List ℕ) (n : ℕ)
    → length argb ≡ rect.w * rect.h
    → IsShaped rect (decoded (make_argb_image rect.w rect.h argb) n)
unfolding make_argb_image
image-IsShaped rect argb n e =
    (refl, refl, length-scan_rows rect.h rect.w argb, scan_rows-AllLong rect.h rect.w argb e)

finish_block-IsShaped :
    (rect : RectHeader) (b n : ℕ) (d : Decoded)
    → IsFilled b (rect.w * rect.h) d
    → IsShaped rect (finish_block rect n d)
unfolding finish_block
finish_block-IsShaped rect b n (pixels argb) h = image-IsShaped rect argb n h
finish_block-IsShaped rect b n refused h = tt
finish_block-IsShaped rect b n out_of_range h = tt
finish_block-IsShaped rect b n overflow h = tt
finish_block-IsShaped rect b n out_of_fuel h = tt

raw-IsShaped :
    (payload : List ℕ) (rect : RectHeader) (f : PixelFormat)
    → IsShaped rect (decode_raw payload rect f)
unfolding decode_raw
raw-IsShaped payload rect f =
    elim (Bool-cases (ltb (length payload) (rect.w * rect.h * bytes_per_pixel f))) [
      | inl e ↦ rw (e, decode_raw) tt
      | inr e ↦ elim (Option-cases (pull_pixels f (rect.w * rect.h) payload)) [
        | inl e' ↦ rw (e, e', decode_raw) tt
        | inr ((cs, q), e') ↦
            rw (e, e', decode_raw)
              (image-IsShaped rect cs (rect.w * rect.h * bytes_per_pixel f)
                (length-pull_pixels f (rect.w * rect.h) payload e'))
      ]
    ]

module _ {Stream : Type 0} (inflate : Stream → List ℕ → Bool × List ℕ × Stream) where
  inflated-IsShaped :
      (rect : RectHeader) (n : ℕ) (f : PixelFormat) (r : Bool × List ℕ × Stream)
      → IsShaped rect (inflated_block inflate rect n f r).0
  unfolding inflated_block
  inflated-IsShaped rect n f (false, out, z) = tt
  inflated-IsShaped rect n f (true, [], z) = tt
  inflated-IsShaped rect n f (true, sub ∷ inner, z) =
      finish_block-IsShaped rect _ n _ (decode_rle_inner-IsFilled f inner sub rect)

  compressed-IsShaped :
      (block : List ℕ) (rect : RectHeader) (n : ℕ) (f : PixelFormat) (z : Option Stream)
      → IsShaped rect (compressed_block inflate block rect n f z).0
  unfolding compressed_block
  compressed-IsShaped block rect n f none = tt
  compressed-IsShaped block rect n f (some z) = inflated-IsShaped rect n f (inflate z block)

  if-IsShaped :
      (rect : RectHeader) (b : Bool) (r t : Outcome × Option Stream)
      → IsShaped rect r.0
      → IsShaped rect t.0
      → IsShaped rect (if b then r else t).0
  if-IsShaped rect true r t h k = h
  if-IsShaped rect false r t h k = k

  rle-IsShaped :
      (payload : List ℕ) (rect : RectHeader) (f : PixelFormat) (z : Option Stream)
      → IsShaped rect (decode_rle inflate payload rect f z).0
  unfolding decode_rle
  rle-IsShaped payload rect f z =
      let n : ℕ = read32_be payload 0 in
      let block : List ℕ = take n (drop 4 payload) in
      if-IsShaped rect (ltb (length payload) 4) _ _ tt (
        if-IsShaped rect (leb (2 ^ 31) n || n == 0) _ _ tt (
          if-IsShaped rect (ltb (max_block rect f) n) _ _ tt (
            if-IsShaped rect (ltb (length payload) (4 + n)) _ _ tt (
              if-IsShaped rect (uncompressed_marker block n) _ _
                (finish_block-IsShaped rect _ (4 + n) _
                  (decode_rle_inner-IsFilled f (drop 6 block) (get_or block 5 0) rect))
                (compressed-IsShaped block rect (4 + n) f z)))))

  -- Whatever inflate does, an image that tryDecodeRect gives has the rectangle's width and
  -- height, as many scan lines as that height, and each scan line as many pixels as that width.
  pub try_decode_rect-IsShaped :
      (payload : List ℕ) (rect : RectHeader) (f : PixelFormat) (z : Option Stream)
      → IsShaped rect (try_decode_rect inflate payload rect f z).0
  unfolding try_decode_rect
  try_decode_rect-IsShaped payload rect f z =
      if-IsShaped rect (rect.encoding == enc_desktop_size) _ _ tt (
        if-IsShaped rect (rect.w == 0 || rect.h == 0) _ _ tt (
          if-IsShaped rect (ltb 4096 rect.w || ltb 4096 rect.h) _ _ tt (
            if-IsShaped rect (rect.encoding == enc_raw) _ _ (raw-IsShaped payload rect f) (
              if-IsShaped rect (rect.encoding == enc_rle) _ _ (rle-IsShaped payload rect f z) tt))))
