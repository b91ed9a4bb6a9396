-- ===== src/Kvm/Rects.antt =====
-- kvm/src/kvm_codec.cpp: the decoding of rectangles, raw or in a block, around that of their tiles.
pub mod Lengths
pub mod Sizes
pub mod Wire
pub mod Runs
pub mod Overflow
pub mod Ranges
pub mod Blocks
pub mod Waiting
pub mod Images
use mesh_commander.Kvm.Tiles.{
  Decoded, RunLength, before, decode_rle_inner, index_bits, index_mask, index_run, out_of_fuel,
  out_of_range, overflow, packed_from, packed_tile, palette_rle_from, palette_rle_tile, pixels,
  pull_pixel, pull_pixels, raw_tile, read_run, refused, rle_from, run_missing, run_of, run_overflow,
  solid_tile, unpack,
}
use mesh_commander.Prelude.{
  ℕ, zero, suc, ◌+◌, ◌-◌, ◌*◌, ◌/◌, ◌%◌, ◌^◌, min, ◌&&◌, ◌||◌, List, [], ◌∷◌, ◌++◌, Option, none,
  some, ltb, leb, ◌==◌, Bool, true, false, if◌then◌else◌, length, get_or, get_elem?, take, drop,
  replicate, bit_and, bit_or,
}
use mesh_commander.Wire.{shl, shr}
use mesh_commander.Kvm.Codec.{
  PixelFormat, rgb565, rgb332, bytes_per_pixel, rgb565_to_argb, rgb332_to_argb, RectHeader, enc_raw,
  enc_rle, enc_desktop_size, read32_be,
}

pub data DecodeStatus : Type 0 where
  ok need_more unsupported_encoding unsupported_subencoding malformed : DecodeStatus

-- A QImage of Format_ARGB32 by its scan lines.
pub record Image : Type 0 where
  pub width : ℕ
  pub height : ℕ
  pub scan_lines : List (List ℕ)

unfoldable pub scan_rows : ℕ → ℕ → List ℕ → List (List ℕ)
scan_rows zero w argb = []
scan_rows (suc h) w argb = take w argb ∷ scan_rows h w (drop w argb)

unfoldable pub make_argb_image : ℕ → ℕ → List ℕ → Image
unfolding scan_rows
make_argb_image w h argb = record { width = w; height = h; scan_lines = scan_rows h w argb }

-- What a decoder leaves behind: the status, what is written to `out`, and what to `*consumed`.
-- `undefined` stands for the cases of `Decoded` that are no result.
pub data Outcome : Type 0 where
  decoded : Image → ℕ → Outcome
  desktop_size nothing : Outcome
  failed_with : DecodeStatus → Outcome
  undefined : Outcome

unfoldable pub decode_raw : List ℕ → RectHeader → PixelFormat → Outcome
unfolding bytes_per_pixel pull_pixels make_argb_image
decode_raw payload rect f =
    let pixel_count : ℕ = rect.w * rect.h in
    let needed : ℕ = pixel_count * bytes_per_pixel f in
    if ltb (length payload) needed
    then failed_with need_more
    else elim (pull_pixels f pixel_count payload) [
      | none ↦ undefined
      | some (argb, p) ↦ decoded (make_argb_image rect.w rect.h argb) needed
    ]

-- The end of both ways through decodeRle.
unfoldable pub finish_block : RectHeader → ℕ → Decoded → Outcome
unfolding make_argb_image
finish_block rect consumed (pixels argb) = decoded (make_argb_image rect.w rect.h argb) consumed
finish_block rect consumed refused = failed_with unsupported_subencoding
finish_block rect consumed out_of_range = undefined
finish_block rect consumed overflow = undefined
finish_block rect consumed out_of_fuel = undefined

-- `maxBlock` for a rectangle.
unfoldable pub max_block : RectHeader → PixelFormat → ℕ
unfolding bytes_per_pixel
max_block rect f =
    let max_inner : ℕ = 1 + rect.w * rect.h * (bytes_per_pixel f + 1) + 127 * 2 in
    max_inner + max_inner / 1024 + 1024

unfoldable pub uncompressed_marker : List ℕ → ℕ → Bool
uncompressed_marker block data_len =
    leb 6 data_len
    && get_or block 0 0 == 0x00
    && bit_or (get_or block 1 0) (shl (get_or block 2 0) 8) == (data_len - 5) % 2 ^ 16

-- `inflate` is InflateStream::inflate on the session's stream: its result, what it has written, and the
-- stream behind it. No stream is a null pointer.
module _ {Stream : Type 0} (inflate : Stream → List ℕ → Bool × List ℕ × Stream) where
  unfoldable pub inflated_block :
      RectHeader → ℕ → PixelFormat → Bool × List ℕ × Stream → Outcome × Option Stream
  unfolding decode_rle_inner finish_block
  inflated_block rect consumed f (false, out, z) = (failed_with malformed, some z)
  inflated_block rect consumed f (true, [], z) = (failed_with malformed, some z)
  inflated_block rect consumed f (true, sub ∷ inner, z) =
      (finish_block rect consumed (decode_rle_inner inner sub rect f), some z)

  unfoldable pub compressed_block :
      List ℕ → RectHeader → ℕ → PixelFormat → Option Stream → Outcome × Option Stream
  unfolding inflated_block
  compressed_block block rect consumed f none = (failed_with unsupported_subencoding, none)
  compressed_block block rect consumed f (some z) = inflated_block rect consumed f (inflate z block)

  unfoldable pub decode_rle :
      List ℕ → RectHeader → PixelFormat → Option Stream → Outcome × Option Stream
  unfolding read32_be max_block uncompressed_marker decode_rle_inner finish_block compressed_block
  decode_rle payload rect f z =
      let data_len : ℕ = read32_be payload 0 in
      let block : List ℕ = take data_len (drop 4 payload) in
      if ltb (length payload) 4
      then (failed_with need_more, z)
      else if leb (2 ^ 31) data_len || data_len == 0
      then (failed_with malformed, z)
      else if ltb (max_block rect f) data_len
      then (failed_with malformed, z)
      else if ltb (length payload) (4 + data_len)
      then (failed_with need_more, z)
      else if uncompressed_marker block data_len
      then (
        finish_block rect (4 + data_len)
            (decode_rle_inner (drop 6 block) (get_or block 5 0) rect f),
        z,
      )
      else compressed_block block rect (4 + data_len) f z

  unfoldable pub try_decode_rect :
      List ℕ → RectHeader → PixelFormat → Option Stream → Outcome × Option Stream
  unfolding decode_raw decode_rle
  try_decode_rect payload rect f z =
      if rect.encoding == enc_desktop_size
      then (desktop_size, z)
      else if rect.w == 0 || rect.h == 0
      then (nothing, z)
      else if ltb 4096 rect.w || ltb 4096 rect.h
      then (failed_with malformed, z)
      else if rect.encoding == enc_raw
      then (decode_raw payload rect f, z)
      else if rect.encoding == enc_rle
      then decode_rle payload rect f z
      else (failed_with unsupported_encoding, z)
