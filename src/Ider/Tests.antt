-- ===== src/Ider/Tests.antt =====
-- Frames of ider/ on small inputs.
use mesh_commander.Prelude.{
  ℕ, ◌+◌, ◌≡◌, true, false, List, [], ◌∷◌, if◌then◌else◌, length, get_or, arith, drop,
}
use mesh_commander.Wire.{read16_le}
use mesh_commander.Ider.Codec.{SessionInfo, build_send_data_to_host}
use mesh_commander.Ider.Codec.Frames.{build_send_data_layout}

abbrev two_bytes : List ℕ
two_bytes = 0xAA ∷ 0xBB ∷ []

abbrev info : SessionInfo
info = record {
  major = 1;
  minor = 0;
  fw_major = 12;
  fw_minor = 3;
  read_buffer = 8192;
  write_buffer = 4096;
  proto = 0;
  iana = 343;
  oem_data = two_bytes;
}

build_send_data_layout_example :
    let frame = build_send_data_to_host 7 0xA0 true two_bytes false in
    (length frame ≡ 34 + length two_bytes)
    × (read16_le frame 9 ≡ length two_bytes)
    × (read16_le frame 16 ≡ (if false then 0 else length two_bytes))
    × (get_or frame 18 0 ≡ 0xA0)
    × (get_or frame 12 0 ≡ (if false then 0xB4 else 0xB5))
    × (get_or frame 20 0 ≡ (if true then 0x85 else 0))
    × (drop 34 frame ≡ two_bytes)
build_send_data_layout_example = build_send_data_layout 7 0xA0 true false two_bytes (omega arith)
