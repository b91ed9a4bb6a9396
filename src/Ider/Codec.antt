-- ===== src/Ider/Codec.antt =====
-- ider/include/ider/ider_codec.h and ider/src/ider_codec.cpp: the frames of IDE redirection. A
-- parser that fills `*out` and `*consumed` and returns true gives both as `some`; on false it has
-- set `*consumed` to 0 and touched nothing else, which is `none`.
pub mod Frames
use mesh_commander.Wire.{shl, shr, pack16_le, pack32_le, read16_le, read32_le}
use mesh_commander.Prelude.{
  ℕ, zero, suc, ◌+◌, ◌-◌, ◌*◌, ◌/◌, ◌%◌, ◌^◌, ◌≤◌, ◌<◌, min, ◌≡◌, ◌≢◌, refl, sym, ap, ◌∙◌, ◌⊎◌, inl,
  inr, ◌↔◌, Bool, true, false, not, ◌&&◌, ◌||◌, List, [], ◌∷◌, ◌++◌, Option, none, some, map, ltb,
  leb, ◌==◌, if◌then◌else◌, length, get_or, Bool-cases, Option-cases, arith, set, replicate, take,
  drop, bit_and, bit_or,
}

-- `enum Command`.
abbrev pub cmd_open_session : ℕ
cmd_open_session = 0x40

abbrev pub cmd_open_session_reply : ℕ
cmd_open_session_reply = 0x41

abbrev pub cmd_keep_alive_pong : ℕ
cmd_keep_alive_pong = 0x45

abbrev pub cmd_reset_response : ℕ
cmd_reset_response = 0x47

abbrev pub cmd_enable_features : ℕ
cmd_enable_features = 0x48

abbrev pub cmd_status_data : ℕ
cmd_status_data = 0x49

abbrev pub cmd_heartbeat : ℕ
cmd_heartbeat = 0x4B

abbrev pub cmd_command_written : ℕ
cmd_command_written = 0x50

abbrev pub cmd_command_end_response : ℕ
cmd_command_end_response = 0x51

abbrev pub cmd_send_data_to_host : ℕ
cmd_send_data_to_host = 0x54

pub record SessionInfo : Type 0 where
  pub major : ℕ
  pub minor : ℕ
  pub fw_major : ℕ
  pub fw_minor : ℕ
  pub read_buffer : ℕ
  pub write_buffer : ℕ
  pub proto : ℕ
  pub iana : ℕ
  pub oem_data : List ℕ

pub record ScsiCommand : Type 0 where
  pub device_flags : ℕ
  pub feature_register : ℕ
  pub cdb : List ℕ

pub record StatusData : Type 0 where
  pub type : ℕ
  pub value : ℕ

unfoldable pub pack_header : ℕ → ℕ → ℕ → List ℕ
unfolding pack32_le
pack_header id sequence attrs = id ∷ 0x00 ∷ 0x00 ∷ attrs ∷ pack32_le sequence

unfoldable pub read_sequence : List ℕ → ℕ
unfolding read32_le
read_sequence frame = if ltb (length frame) 8 then 0 else read32_le frame 4

unfoldable pub build_open_session : ℕ → ℕ → ℕ → ℕ → ℕ → List ℕ
unfolding pack_header pack16_le pack32_le
build_open_session sequence rx_timeout_ms tx_timeout_ms hb_timeout_ms version =
    pack_header cmd_open_session sequence 0
    ++ (pack16_le rx_timeout_ms
        ++ (pack16_le tx_timeout_ms ++ (pack16_le hb_timeout_ms ++ pack32_le version)))

unfoldable pub build_keep_alive_pong : ℕ → List ℕ
unfolding pack_header
build_keep_alive_pong sequence = pack_header cmd_keep_alive_pong sequence 0

unfoldable pub build_reset_response : ℕ → List ℕ
unfolding pack_header
build_reset_response sequence = pack_header cmd_reset_response sequence 0

unfoldable pub build_enable_features : ℕ → ℕ → List ℕ → List ℕ
unfolding pack_header
build_enable_features sequence type payload =
    pack_header cmd_enable_features sequence 0 ++ (type ∷ payload)

unfoldable pub build_heartbeat : ℕ → List ℕ
unfolding pack_header
build_heartbeat sequence = pack_header cmd_heartbeat sequence 0

-- The 23 bytes of status, written one by one over zeros.
unfoldable pub command_end_body : Bool → ℕ → ℕ → ℕ → ℕ → List ℕ
command_end_body true sense device asc asq =
    let b0 : List ℕ = replicate 23 0 in
    let b1 : List ℕ = set b0 12 0xC5 in
    let b2 : List ℕ = set b1 14 0x03 in let b3 : List ℕ = set b2 18 device in set b3 19 0x50
command_end_body false sense device asc asq =
    let b0 : List ℕ = replicate 23 0 in
    let b1 : List ℕ = set b0 12 0x87 in
    let b2 : List ℕ = set b1 13 (bit_and (shl sense 4) 0xFF) in
    let b3 : List ℕ = set b2 14 0x03 in
    let b4 : List ℕ = set b3 18 device in
    let b5 : List ℕ = set b4 19 0x51 in
    let b6 : List ℕ = set b5 20 sense in let b7 : List ℕ = set b6 21 asc in set b7 22 asq

unfoldable pub build_command_end_response : ℕ → Bool → ℕ → ℕ → ℕ → ℕ → List ℕ
unfolding pack_header command_end_body
build_command_end_response sequence error sense device asc asq =
    pack_header cmd_command_end_response sequence 0x02
    ++ command_end_body error sense device asc asq

-- The last writes of the 26 bytes, made only for a completed transfer.
unfoldable pub completed_body : Bool → ℕ → List ℕ → List ℕ
completed_body true device body = set (set (set (set body 12 0x85) 14 0x03) 18 device) 19 0x50
completed_body false device body = body

unfoldable pub send_data_body : ℕ → Bool → ℕ → Bool → List ℕ
unfolding completed_body
send_data_body device completed size dma =
    let n : ℕ = size % 2 ^ 16 in
    let dmalen : ℕ = if dma then 0 else n in
    let b0 : List ℕ = replicate 26 0 in
    let b1 : List ℕ = set b0 1 (bit_and n 0xFF) in
    let b2 : List ℕ = set b1 2 (bit_and (shr n 8) 0xFF) in
    let b3 : List ℕ = set b2 4 (if dma then 0xB4 else 0xB5) in
    let b4 : List ℕ = set b3 6 0x02 in
    let b5 : List ℕ = set b4 8 (bit_and dmalen 0xFF) in
    let b6 : List ℕ = set b5 9 (bit_and (shr dmalen 8) 0xFF) in
    let b7 : List ℕ = set b6 10 device in
    let b8 : List ℕ = set b7 11 0x58 in completed_body completed device b8

unfoldable pub build_send_data_to_host : ℕ → ℕ → Bool → List ℕ → Bool → List ℕ
unfolding pack_header send_data_body
build_send_data_to_host sequence device completed payload dma =
    let done : ℕ = if completed then 0x02 else 0x00 in
    let attrs : ℕ = if dma then bit_or done 0x01 else done in
    pack_header cmd_send_data_to_host sequence attrs
    ++ (send_data_body device completed (length payload) dma ++ payload)

unfoldable pub peek_tag : List ℕ → ℕ
peek_tag [] = 0
peek_tag (b ∷ buffer) = b

-- What is written to `*info`.
unfoldable pub session_info : List ℕ → SessionInfo
session_info buffer = record {
  major = get_or buffer 8 0;
  minor = get_or buffer 9 0;
  fw_major = get_or buffer 10 0;
  fw_minor = get_or buffer 11 0;
  read_buffer = read16_le buffer 16;
  write_buffer = read16_le buffer 18;
  proto = get_or buffer 21 0;
  iana = read32_le buffer 25;
  oem_data = take (get_or buffer 29 0) (drop 30 buffer);
}

unfoldable pub try_parse_open_session_reply : List ℕ → Option (SessionInfo × ℕ)
try_parse_open_session_reply buffer =
    let oem_len : ℕ = get_or buffer 29 0 in
    if ltb (length buffer) 30
    then none
    else if not (peek_tag buffer == cmd_open_session_reply)
    then none
    else if ltb (length buffer) (30 + oem_len)
    then none
    else some (session_info buffer, 30 + oem_len)

unfoldable pub try_parse_command_written : List ℕ → Option (ScsiCommand × ℕ)
try_parse_command_written buffer =
    if ltb (length buffer) 28
    then none
    else if not (peek_tag buffer == cmd_command_written)
    then none
    else some (
      record {
        feature_register = get_or buffer 9 0;
        device_flags = get_or buffer 14 0;
        cdb = take 12 (drop 16 buffer);
      },
      28,
    )

unfoldable pub try_parse_fixed : List ℕ → ℕ → ℕ → Option ℕ
try_parse_fixed buffer expected_tag total_size =
    if ltb (length buffer) total_size
    then none
    else if not (peek_tag buffer == expected_tag)
    then none
    else some total_size

unfoldable pub try_parse_status_data : List ℕ → Option (StatusData × ℕ)
try_parse_status_data buffer =
    if ltb (length buffer) 13
    then none
    else if not (peek_tag buffer == cmd_status_data)
    then none
    else some (record { type = get_or buffer 8 0; value = read32_le buffer 9 }, 13)
