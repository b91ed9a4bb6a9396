-- ===== src/Kvm/Tests.antt =====
-- Runs of the KVM components on small inputs.
use mesh_commander.Kvm.Codec.{
  rgb565, rgb332, RectHeader, ServerInit, try_parse_server_init, rgb332_to_argb, rgb565_to_argb,
  bytes_per_pixel, choose_format_for, display_buffer_bytes,
}
use mesh_commander.Kvm.Tiles.{
  refused, read_run, run_of, run_overflow, pixels, out_of_range, decode_rle_inner, index_mask,
}
use mesh_commander.Kvm.Rects.{try_decode_rect, max_block}
use mesh_commander.Kvm.Rects.Sizes.{IsFilled, decode_rle_inner-IsFilled}
use mesh_commander.Kvm.Rects.Ranges.{InRange, decode_rle_inner-InRange, decode_rle_inner_over}
use mesh_commander.Kvm.Rects.Wire.{palette_bytes, colour_of}
use mesh_commander.Kvm.Rects.Runs.{
  runs_bytes, runs_colours, decode-runs_bytes, indices_bytes, indices_colours, decode-indices_bytes,
}
use mesh_commander.Kvm.Rects.Waiting.{try_decode_rect_answers, try_decode_rect_stream}
use mesh_commander.Kvm.Rects.Blocks.{IsAnswer, consumed_by}
use mesh_commander.Kvm.Rects.Images.{IsShaped, try_decode_rect-IsShaped}
use mesh_commander.Kvm.Session.{
  idle, version, security, failed, state_changed, closed, write_failed, KvmSession, on_raw_bytes,
  started, raw_bytes, key, on_events, value_or,
}
use mesh_commander.Kvm.Session.Fits.{on_events-IsWithin}
use mesh_commander.Kvm.Session.Steps.{IsWithin}
use mesh_commander.Kvm.Session.Handshake.{IsReady, on_raw_bytes_handshake}
use mesh_commander.Kvm.Session.Refusals.{on_raw_bytes_refused, on_events-failed}
use mesh_commander.Prelude.{
  ◌+◌, replicate, ℕ, ◌≤◌, ◌≡◌, refl, Bool, true, false, List, [], ◌∷◌, ◌++◌, none, some, map, arith,
}

-- A stream that gives back what it is given.
abbrev stored : ℕ → List ℕ → Bool × List ℕ × ℕ
stored z bytes = (true, bytes, z)

abbrev taking : ℕ → List ℕ → Bool
taking n frame = true

abbrev refusing : ℕ → List ℕ → Bool
refusing n frame = false

abbrev tile : RectHeader
tile = record { x = 0; y = 0; w = 2; h = 2; encoding = 16 }

abbrev raw_tile : RectHeader
raw_tile = record { x = 0; y = 0; w = 2; h = 1; encoding = 0 }

abbrev fresh : KvmSession ℕ
fresh = record {
  inbox = [];
  state = idle;
  width = 0;
  height = 0;
  format = rgb565;
  preferred_format = none;
  pending_rects = 0;
  compression_enabled = true;
  stream = 0;
  writes = 0;
  sent = [];
  signals = [];
  queued = 0;
}

abbrev over : KvmSession ℕ
over = record fresh { state = failed }

abbrev banner : List ℕ
banner = replicate 12 0x20

-- A desktop of 640 by 480 named "A".
abbrev server_message : List ℕ
server_message = 0x02 ∷ 0x80 ∷ 0x01 ∷ 0xE0 ∷ (replicate 16 0 ++ (0 ∷ 0 ∷ 0 ∷ 1 ∷ 0x41 ∷ []))

abbrev desktop : ServerInit
desktop = record { width = 640; height = 480; name = 0x41 ∷ [] }

server_message_parses : try_parse_server_init server_message ≡ some (desktop, 25)
unfolding try_parse_server_init
server_message_parses = refl

white_8 : rgb332_to_argb 0xFF ≡ 0xFFFFFFFF
unfolding rgb332_to_argb
white_8 = refl

white_16 : rgb565_to_argb 0xFFFF ≡ 0xFFF8FCF8
unfolding rgb565_to_argb
white_16 = refl

solid : decode_rle_inner (0xFF ∷ []) 1 tile rgb332 ≡ pixels (replicate 4 0xFFFFFFFF)
unfolding decode_rle_inner
solid = refl

two_colours :
    decode_rle_inner (0x00 ∷ 0xFF ∷ 0x50 ∷ []) 2 tile rgb332
    ≡ pixels (0xFF000000 ∷ 0xFFFFFFFF ∷ 0xFF000000 ∷ 0xFFFFFFFF ∷ [])
unfolding decode_rle_inner
two_colours = refl

-- A run of three, then one pixel of the other colour; and an index that the palette does not have.
indexed_runs :
    decode_rle_inner (0x00 ∷ 0xFF ∷ 0x81 ∷ 0x02 ∷ 0x00 ∷ []) 130 tile rgb332
    ≡ pixels (0xFFFFFFFF ∷ 0xFFFFFFFF ∷ 0xFFFFFFFF ∷ 0xFF000000 ∷ [])
unfolding decode_rle_inner
indexed_runs = refl

no_such_index : decode_rle_inner (0x00 ∷ 0xFF ∷ 0x02 ∷ []) 130 tile rgb332 ≡ refused
unfolding decode_rle_inner
no_such_index = refl

-- The last length that an int holds, and the first that it does not.
longest_run : read_run 0x7FFFFF00 (0xFF ∷ 0x00 ∷ []) ≡ run_of 0x7FFFFFFF []
unfolding read_run
longest_run = refl

too_long_run : read_run 0x7FFFFF00 (0xFF ∷ 0x01 ∷ []) ≡ run_overflow
unfolding read_run
too_long_run = refl

decode_rle_inner-IsFilled_example :
    IsFilled (4 + 386) 4 (decode_rle_inner (0x00 ∷ 0xFF ∷ 0x81 ∷ 0x02 ∷ 0x00 ∷ []) 130 tile rgb332)
decode_rle_inner-IsFilled_example =
    decode_rle_inner-IsFilled rgb332 (0x00 ∷ 0xFF ∷ 0x81 ∷ 0x02 ∷ 0x00 ∷ []) 130 tile

decode_rle_inner-InRange_example :
    InRange (decode_rle_inner (0x00 ∷ 0xFF ∷ 0x50 ∷ []) 2 tile rgb332)
unfolding index_mask
decode_rle_inner-InRange_example =
    decode_rle_inner-InRange rgb332 (0x00 ∷ 0xFF ∷ 0x50 ∷ []) 2 tile (λ h k. omega arith)

decode_rle_inner_over_example :
    decode_rle_inner (0x00 ∷ 0x01 ∷ 0x02 ∷ 0xFF ∷ []) 3 tile rgb332 ≡ out_of_range
unfolding index_mask bytes_per_pixel
decode_rle_inner_over_example =
    decode_rle_inner_over rgb332 3 tile (0x00 ∷ 0x01 ∷ 0x02 ∷ []) [] (omega arith) (omega arith)
      (omega arith) (omega arith) refl

abbrev largest : RectHeader
largest = record { x = 0; y = 0; w = 4096; h = 4096; encoding = 16 }

decode-runs_bytes_example :
    decode_rle_inner (runs_bytes rgb332 ((0xFF, 3) ∷ (0x00, 1) ∷ [])) 128 tile rgb332
    ≡ pixels (runs_colours rgb332 ((0xFF, 3) ∷ (0x00, 1) ∷ []))
decode-runs_bytes_example =
    decode-runs_bytes rgb332 ((0xFF, 3) ∷ (0x00, 1) ∷ []) tile (omega arith) refl (omega arith)

decode-indices_bytes_example :
    decode_rle_inner
      (palette_bytes rgb332 (0x00 ∷ 0xFF ∷ []) ++ indices_bytes ((1, 3) ∷ (0, 1) ∷ []))
      130
      tile
      rgb332
    ≡ pixels (indices_colours (map (colour_of rgb332) (0x00 ∷ 0xFF ∷ [])) ((1, 3) ∷ (0, 1) ∷ []))
decode-indices_bytes_example =
    decode-indices_bytes rgb332 (0x00 ∷ 0xFF ∷ []) ((1, 3) ∷ (0, 1) ∷ []) tile (omega arith)
      (omega arith) (omega arith) (omega arith) refl (omega arith)

try_decode_rect_answers_example :
    IsAnswer (try_decode_rect stored (replicate 1400 7) tile rgb332 (some 0)).0
unfolding max_block bytes_per_pixel
try_decode_rect_answers_example =
    try_decode_rect_answers stored (replicate 1400 7) tile rgb332 (some 0) (omega arith)

try_decode_rect_stream_example :
    (consumed_by (try_decode_rect stored (1 ∷ 2 ∷ []) raw_tile rgb332 (some 0)).0 ≤ 2)
    × (try_decode_rect stored (1 ∷ 2 ∷ 9 ∷ []) raw_tile rgb332 (some 0)
        ≡ try_decode_rect stored (1 ∷ 2 ∷ []) raw_tile rgb332 (some 0))
unfolding try_decode_rect
try_decode_rect_stream_example =
    try_decode_rect_stream stored (1 ∷ 2 ∷ []) (9 ∷ []) raw_tile rgb332 (some 0) tt

try_decode_rect-IsShaped_example :
    IsShaped raw_tile (try_decode_rect stored (1 ∷ 2 ∷ []) raw_tile rgb332 (some 0)).0
try_decode_rect-IsShaped_example =
    try_decode_rect-IsShaped stored (1 ∷ 2 ∷ []) raw_tile rgb332 (some 0)

on_events-IsWithin_example : IsWithin (
    on_events taking stored
      (λ z. z)
      (started true true ∷ raw_bytes banner ∷ key 65 true ∷ [])
      fresh)
on_events-IsWithin_example =
    on_events-IsWithin taking stored (λ z. z)
      (started true true ∷ raw_bytes banner ∷ key 65 true ∷ []) fresh tt

on_raw_bytes_handshake_example :
    IsReady fresh
      (on_raw_bytes taking stored
        (banner ++ ((1 ∷ 1 ∷ []) ++ (0 ∷ 0 ∷ 0 ∷ 0 ∷ server_message)))
        (record fresh { state = version; inbox = []; pending_rects = 0 }))
      (choose_format_for 640 480)
      desktop
unfolding choose_format_for display_buffer_bytes bytes_per_pixel value_or
on_raw_bytes_handshake_example =
    on_raw_bytes_handshake taking stored (λ n frame. refl) fresh banner (1 ∷ []) server_message
      desktop refl server_message_parses refl (omega arith)

on_raw_bytes_refused_example :
    ((on_raw_bytes refusing stored banner (record fresh { state = version; inbox = [] })).state
      ≡ security)
    × ((on_raw_bytes refusing stored banner (record fresh { state = version; inbox = [] })).signals
        ≡ state_changed security ∷ closed write_failed ∷ state_changed failed ∷ [])
    × ((on_raw_bytes refusing stored banner (record fresh { state = version; inbox = [] })).sent
        ≡ [])
on_raw_bytes_refused_example = on_raw_bytes_refused refusing stored fresh banner refl refl

on_events-failed_example :
    ((on_events taking stored (λ z. z) (raw_bytes banner ∷ key 65 true ∷ []) over).state ≡ failed)
    × ((on_events taking stored (λ z. z) (raw_bytes banner ∷ key 65 true ∷ []) over).sent ≡ [])
on_events-failed_example =
    on_events-failed taking stored (λ z. z) (raw_bytes banner ∷ key 65 true ∷ []) over
      (tt, (tt, tt)) refl
