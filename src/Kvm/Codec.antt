-- ===== src/Kvm/Codec.antt =====
-- kvm/src/kvm_codec.cpp and kvm/include/kvm/kvm_codec.h: the remote framebuffer messages. The decoding
-- of rectangles is in Kvm/Rects.
use mesh_commander.Prelude.{
  ℕ, ◌+◌, ◌*◌, ◌/◌, ◌^◌, not, ◌||◌, List, [], ◌∷◌, ◌++◌, Option, none, some, ltb, leb, ◌==◌, Bool,
  false, if◌then◌else◌, length, get_or, take, drop, bit_and, bit_or,
}
use mesh_commander.Wire.{shl, shr}

pub data PixelFormat : Type 0 where
  rgb565 rgb332 : PixelFormat

unfoldable pub bytes_per_pixel : PixelFormat → ℕ
bytes_per_pixel rgb565 = 2
bytes_per_pixel rgb332 = 1

abbrev pub max_display_buffer_bytes : ℕ
max_display_buffer_bytes = 9216000

unfoldable pub display_buffer_bytes : PixelFormat → ℕ → ℕ → ℕ
unfolding bytes_per_pixel
display_buffer_bytes f w h = bytes_per_pixel f * w * h

unfoldable pub choose_format_for : ℕ → ℕ → PixelFormat
unfolding display_buffer_bytes
choose_format_for w h =
    if leb (display_buffer_bytes rgb565 w h) max_display_buffer_bytes then rgb565 else rgb332

unfoldable pub pack16_be : ℕ → List ℕ
pack16_be v = bit_and (shr v 8) 0xFF ∷ bit_and v 0xFF ∷ []

unfoldable pub pack32_be : ℕ → List ℕ
pack32_be v =
    bit_and (shr v 24) 0xFF ∷ bit_and (shr v 16) 0xFF ∷ bit_and (shr v 8) 0xFF ∷ bit_and v 0xFF ∷ []

unfoldable pub read16_be : List ℕ → ℕ → ℕ
read16_be b off = bit_or (shl (get_or b off 0) 8) (get_or b (off + 1) 0)

-- The bits of a qint32: from 2^31 on it is negative.
unfoldable pub read32_be : List ℕ → ℕ → ℕ
read32_be b off =
    bit_or
      (bit_or (bit_or (shl (get_or b off 0) 24) (shl (get_or b (off + 1) 0) 16))
        (shl (get_or b (off + 2) 0) 8))
      (get_or b (off + 3) 0)

unfoldable pub rgb565_to_argb : ℕ → ℕ
rgb565_to_argb v =
    let r : ℕ = bit_and (shr v 8) 0xF8 in
    let g : ℕ = bit_and (shr v 3) 0xFC in
    let b : ℕ = shl (bit_and v 0x1F) 3 in bit_or (bit_or (bit_or 0xFF000000 (shl r 16)) (shl g 8)) b

unfoldable pub rgb332_to_argb : ℕ → ℕ
rgb332_to_argb v =
    let r : ℕ = bit_and (shr v 5) 0x07 * 255 / 7 in
    let g : ℕ = bit_and (shr v 2) 0x07 * 255 / 7 in
    let b : ℕ = bit_and v 0x03 * 255 / 3 in
    bit_or (bit_or (bit_or 0xFF000000 (shl r 16)) (shl g 8)) b

-- "RFB 003.008\n".
unfoldable pub build_version_response : List ℕ
build_version_response =
    0x52 ∷ 0x46 ∷ 0x42 ∷ 0x20 ∷ 0x30 ∷ 0x30 ∷ 0x33 ∷ 0x2E ∷ 0x30 ∷ 0x30 ∷ 0x38 ∷ 0x0A ∷ []

unfoldable pub try_parse_security_types : List ℕ → ℕ
try_parse_security_types buffer =
    let total : ℕ = 1 + get_or buffer 0 0 in
    if ltb (length buffer) 1 then 0 else if ltb (length buffer) total then 0 else total

unfoldable pub build_security_choice : List ℕ
build_security_choice = 0x01 ∷ []

-- The result and what is written to `*consumed`.
unfoldable pub try_parse_security_result : List ℕ → Bool × ℕ
unfolding read32_be
try_parse_security_result buffer =
    if ltb (length buffer) 4 then (false, 0) else (read32_be buffer 0 == 0, 4)

unfoldable pub build_client_init : List ℕ
build_client_init = 0x01 ∷ []

-- The name is kept as the bytes that QString::fromUtf8 is given.
pub record ServerInit : Type 0 where
  pub width : ℕ
  pub height : ℕ
  pub name : List ℕ

unfoldable pub try_parse_server_init : List ℕ → Option (ServerInit × ℕ)
unfolding read16_be read32_be
try_parse_server_init buffer =
    let namelen : ℕ = read32_be buffer 20 in
    if ltb (length buffer) 24
    then none
    else if leb (2 ^ 31) namelen || ltb (2 ^ 20) namelen
    then none
    else if ltb (length buffer) (24 + namelen)
    then none
    else some (
      record {
        width = read16_be buffer 0;
        height = read16_be buffer 2;
        name = take namelen (drop 24 buffer);
      },
      24 + namelen,
    )

unfoldable pub build_set_pixel_format : PixelFormat → List ℕ
unfolding pack16_be
build_set_pixel_format rgb565 =
    0x00
    ∷ 0x00
    ∷ 0x00
    ∷ 0x00
    ∷ 16
    ∷ 16
    ∷ 0
    ∷ 1
    ∷ (pack16_be 31 ++ (pack16_be 63 ++ (pack16_be 31 ++ (11 ∷ 5 ∷ 0 ∷ 0x00 ∷ 0x00 ∷ 0x00 ∷ []))))
build_set_pixel_format rgb332 =
    0x00
    ∷ 0x00
    ∷ 0x00
    ∷ 0x00
    ∷ 8
    ∷ 8
    ∷ 0
    ∷ 1
    ∷ (pack16_be 7 ++ (pack16_be 7 ++ (pack16_be 3 ++ (5 ∷ 2 ∷ 0 ∷ 0x00 ∷ 0x00 ∷ 0x00 ∷ []))))

-- `enum Encoding`; a negative one is its bits.
abbrev pub enc_raw : ℕ
enc_raw = 0

abbrev pub enc_rle : ℕ
enc_rle = 16

abbrev pub enc_desktop_size : ℕ
enc_desktop_size = 0xFFFFFF21

unfoldable pub build_set_encodings : List ℕ
unfolding pack16_be pack32_be
build_set_encodings =
    2
    ∷ 0x00
    ∷ (pack16_be 3 ++ (pack32_be enc_rle ++ (pack32_be enc_raw ++ pack32_be enc_desktop_size)))

-- The length is that of the 11 bytes of the tag and the two bytes behind it.
unfoldable pub build_kvm_ext_cmd : ℕ → ℕ → List ℕ
unfolding pack32_be
build_kvm_ext_cmd cmd value =
    6
    ∷ 0
    ∷ 0
    ∷ 0
    ∷ (pack32_be 13
        ++ (0x00 ∷ 0x4B ∷ 0x76 ∷ 0x6D ∷ 0x45 ∷ 0x78 ∷ 0x74 ∷ 0x43 ∷ 0x6D ∷ 0x64 ∷ 0x00 ∷ cmd ∷ value
            ∷ []))

unfoldable pub build_framebuffer_update_request : Bool → ℕ → ℕ → ℕ → ℕ → List ℕ
unfolding pack16_be
build_framebuffer_update_request incremental x y w h =
    3
    ∷ (if incremental then 1 else 0)
    ∷ (pack16_be x ++ (pack16_be y ++ (pack16_be w ++ pack16_be h)))

unfoldable pub build_key_event : ℕ → Bool → List ℕ
unfolding pack32_be
build_key_event keysym down = 4 ∷ (if down then 1 else 0) ∷ 0x00 ∷ 0x00 ∷ pack32_be keysym

unfoldable pub build_pointer_event : ℕ → ℕ → ℕ → List ℕ
unfolding pack16_be
build_pointer_event button_mask x y = 5 ∷ button_mask ∷ (pack16_be x ++ pack16_be y)

-- The header's number of rectangles.
unfoldable pub try_parse_frame_update : List ℕ → Option (ℕ × ℕ)
unfolding read16_be
try_parse_frame_update buffer =
    if ltb (length buffer) 4
    then none
    else if not (get_or buffer 0 0 == 0)
    then none
    else some (read16_be buffer 2, 4)

pub record RectHeader : Type 0 where
  pub x : ℕ
  pub y : ℕ
  pub w : ℕ
  pub h : ℕ
  pub encoding : ℕ

unfoldable pub try_parse_rect_header : List ℕ → Option (RectHeader × ℕ)
unfolding read16_be read32_be
try_parse_rect_header buffer =
    if ltb (length buffer) 12
    then none
    else some (
      record {
        x = read16_be buffer 0;
        y = read16_be buffer 2;
        w = read16_be buffer 4;
        h = read16_be buffer 6;
        encoding = read32_be buffer 8;
      },
      12,
    )
