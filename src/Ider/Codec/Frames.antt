-- ===== src/Ider/Codec/Frames.antt =====
-- What the frames of ider/src/ider_codec.cpp hold, read back from their bytes.
use mesh_commander.Prelude.{
  ℕ, ◌+◌, ◌*◌, ◌%◌, ◌^◌, ◌≤◌, ◌<◌, ◌≡◌, refl, ◌∙◌, Bool, true, false, List, [], ◌∷◌, ◌++◌, some,
  if◌then◌else◌, length, get_or, arith, slice-append_left, get_or-append_left, take-append,
  bit_and_mask, drop, length-append,
}
use mesh_commander.Wire.{
  IsStreaming, read16_le-append, read32_le-append, pack16_le, pack32_le, read16_le, read32_le,
  read16_le-pack16_le, read32_le-pack32_le,
}
use mesh_commander.Ider.Codec.{
  session_info, cmd_send_data_to_host, cmd_command_end_response, cmd_heartbeat, cmd_enable_features,
  cmd_reset_response, cmd_keep_alive_pong, cmd_open_session, pack_header, read_sequence,
  build_open_session, build_keep_alive_pong, build_reset_response, build_enable_features,
  build_heartbeat, build_command_end_response, build_send_data_to_host, peek_tag, SessionInfo,
  try_parse_open_session_reply, try_parse_command_written, try_parse_status_data,
  cmd_open_session_reply,
}

-- Whatever follows the header, its sequence number is read back.
read_sequence-header :
    (tag sequence attrs : ℕ) (body : List ℕ)
    → sequence < 2 ^ 32
    → read_sequence (pack_header tag sequence attrs ++ body) ≡ sequence
unfolding pack_header read_sequence read32_le pack32_le
read_sequence-header tag sequence attrs body h = ground (arith, read32_le-pack32_le sequence body h)

read_sequence-bare :
    (tag sequence attrs : ℕ)
    → sequence < 2 ^ 32
    → read_sequence (pack_header tag sequence attrs) ≡ sequence
unfolding pack_header
read_sequence-bare tag sequence attrs h = read_sequence-header tag sequence attrs [] h

-- The sequence number, below 2^32, that any of the seven outbound builders is given is the one
-- that readSequence finds in the frame.
pub read_sequence-build :
    (sequence rx tx hb version type device sense asc asq : ℕ)
    → (error completed dma : Bool) (payload : List ℕ) → sequence < 2 ^ 32
    → (read_sequence (build_open_session sequence rx tx hb version) ≡ sequence)
      × (read_sequence (build_keep_alive_pong sequence) ≡ sequence)
      × (read_sequence (build_reset_response sequence) ≡ sequence)
      × (read_sequence (build_enable_features sequence type payload) ≡ sequence)
      × (read_sequence (build_heartbeat sequence) ≡ sequence)
      × (read_sequence (build_command_end_response sequence error sense device asc asq) ≡ sequence)
      × (read_sequence (build_send_data_to_host sequence device completed payload dma) ≡ sequence)
unfolding build_open_session build_keep_alive_pong build_reset_response build_enable_features
    build_heartbeat build_command_end_response build_send_data_to_host
read_sequence-build sequence rx tx hb version type device sense asc asq error completed dma payload
      h =
    (
      read_sequence-header cmd_open_session sequence 0 _ h,
      read_sequence-bare cmd_keep_alive_pong sequence 0 h,
      read_sequence-bare cmd_reset_response sequence 0 h,
      read_sequence-header cmd_enable_features sequence 0 (type ∷ payload) h,
      read_sequence-bare cmd_heartbeat sequence 0 h,
      read_sequence-header cmd_command_end_response sequence 2 _ h,
      read_sequence-header cmd_send_data_to_host sequence _ _ h,
    )

-- A 16-bit length goes through its two bytes unchanged.
packed_length : (n : ℕ) → n < 2 ^ 16 → read16_le (pack16_le (n % 2 ^ 16)) 0 ≡ n
unfolding pack16_le
packed_length n h = read16_le-pack16_le (n % 2 ^ 16) [] (omega arith) ∙ omega arith

-- For a payload below 65536 bytes a SendDataToHost frame is 34 bytes and the payload, holds the
-- payload's length in its count, and in its DMA length when it is not DMA, the device, the
-- transfer mode and the completion status at their places, and ends in the payload.
pub build_send_data_layout :
    (sequence device : ℕ) (completed dma : Bool) (payload : List ℕ)
    → length payload < 2 ^ 16
    → let frame = build_send_data_to_host sequence device completed payload dma in
      (length frame ≡ 34 + length payload)
      × (read16_le frame 9 ≡ length payload)
      × (read16_le frame 16 ≡ (if dma then 0 else length payload))
      × (get_or frame 18 0 ≡ device)
      × (get_or frame 12 0 ≡ (if dma then 0xB4 else 0xB5))
      × (get_or frame 20 0 ≡ (if completed then 0x85 else 0))
      × (drop 34 frame ≡ payload)
unfolding build_send_data_to_host read16_le pack16_le
build_send_data_layout sequence device true true payload l =
    (omega arith, packed_length _ l, refl, refl, refl, refl, refl)
build_send_data_layout sequence device true false payload l =
    (omega arith, packed_length _ l, packed_length _ l, refl, refl, refl, refl)
build_send_data_layout sequence device false true payload l =
    (omega arith, packed_length _ l, refl, refl, refl, refl, refl)
build_send_data_layout sequence device false false payload l =
    (omega arith, packed_length _ l, packed_length _ l, refl, refl, refl, refl)

-- For a sense key below 16 a CommandEndResponse is 31 bytes with the completed bit set and the
-- device at its place; with error it has status 0xC5 and no sense, without error it has status
-- 0x87, the sense key in the high half of its byte, and sense, asc and asq at the end.
pub build_command_end_layout :
    (sequence : ℕ) (error : Bool) (sense device asc asq : ℕ)
    → sense < 16
    → let frame = build_command_end_response sequence error sense device asc asq in
      (length frame ≡ 31)
      × (get_or frame 3 0 ≡ 0x02)
      × (get_or frame 26 0 ≡ device)
      × (get_or frame 20 0 ≡ (if error then 0xC5 else 0x87))
      × (get_or frame 21 0 ≡ (if error then 0 else sense * 16))
      × (drop 28 frame ≡ (if error then 0 ∷ 0 ∷ 0 ∷ [] else sense ∷ asc ∷ asq ∷ []))
unfolding build_command_end_response
build_command_end_layout sequence true sense device asc asq h = (refl, refl, refl, refl, refl, refl)
build_command_end_layout sequence false sense device asc asq h =
    (refl, refl, refl, refl, omega (arith, bit_and_mask 8 (sense * 16)), refl)

-- The reply to an open request, as the management engine lays it out: eight bytes of header, then
-- the fields at the places that the parser names, the OEM length and the OEM bytes.
abbrev pub encode_open_session_reply : ℕ → SessionInfo → List ℕ
encode_open_session_reply sequence info =
    pack_header cmd_open_session_reply sequence 0
    ++ (info.major ∷ info.minor ∷ info.fw_major ∷ info.fw_minor ∷ 0 ∷ 0 ∷ 0 ∷ 0 ∷ []
        ++ (pack16_le info.read_buffer
            ++ (pack16_le info.write_buffer
                ++ (0
                    ∷ info.proto
                    ∷ 0
                    ∷ 0
                    ∷ 0
                    ∷ (pack32_le info.iana ++ (length info.oem_data ∷ info.oem_data))))))

-- The reply to an open request, its buffer sizes below 2^16 and its IANA number below 2^32, is
-- parsed back to the session information that it carries, whatever follows it, and exactly its
-- own bytes are consumed.
pub parse-encode_open_session_reply :
    (sequence : ℕ) (info : SessionInfo) (rest : List ℕ)
    → info.read_buffer < 2 ^ 16
    → info.write_buffer < 2 ^ 16
    → info.iana < 2 ^ 32
    → try_parse_open_session_reply (encode_open_session_reply sequence info ++ rest)
      ≡ some (info, length (encode_open_session_reply sequence info))
unfolding try_parse_open_session_reply session_info peek_tag pack_header pack16_le pack32_le
    read16_le read32_le
parse-encode_open_session_reply sequence info rest hr hw hi = ground (
  arith,
  read16_le-pack16_le info.read_buffer [] hr,
  read16_le-pack16_le info.write_buffer [] hw,
  read32_le-pack32_le info.iana [] hi,
  take-append info.oem_data rest (length info.oem_data) refl,
  length-append info.oem_data rest,
)

peek_tag-append :
    (buffer more : List ℕ) → 1 ≤ length buffer → peek_tag (buffer ++ more) ≡ peek_tag buffer
unfolding peek_tag
peek_tag-append [] more h = absurd (omega arith)
peek_tag-append (b ∷ buffer) more h = refl

status_data-IsStreaming : IsStreaming try_parse_status_data
unfolding try_parse_status_data
status_data-IsStreaming buffer more a consumed e = ground (
  arith,
  length-append buffer more,
  peek_tag-append buffer more,
  get_or-append_left buffer more 8 0,
  read32_le-append buffer more 9,
)

command_written-IsStreaming : IsStreaming try_parse_command_written
unfolding try_parse_command_written
command_written-IsStreaming buffer more a consumed e = ground (
  arith,
  length-append buffer more,
  peek_tag-append buffer more,
  get_or-append_left buffer more 9 0,
  get_or-append_left buffer more 14 0,
  slice-append_left 16 12 buffer more,
)

session_info-append :
    (buffer more : List ℕ)
    → 30 + get_or buffer 29 0 ≤ length buffer
    → session_info (buffer ++ more) ≡ session_info buffer
unfolding session_info
session_info-append buffer more h =
    let at = λ (i : ℕ) (l : i < 30). get_or-append_left buffer more i 0 (omega arith) in
    rw (
      at 8 (omega arith),
      at 9 (omega arith),
      at 10 (omega arith),
      at 11 (omega arith),
      at 21 (omega arith),
      at 29 (omega arith),
      read16_le-append buffer more 16 (omega arith),
      read16_le-append buffer more 18 (omega arith),
      read32_le-append buffer more 25 (omega arith),
      slice-append_left 30 (get_or buffer 29 0) buffer more h,
    )

open_session_reply-IsStreaming : IsStreaming try_parse_open_session_reply
unfolding try_parse_open_session_reply
open_session_reply-IsStreaming buffer more a consumed e = ground (
  arith,
  length-append buffer more,
  peek_tag-append buffer more,
  get_or-append_left buffer more 29 0,
  session_info-append buffer more,
)

-- Each of the three IDE redirection parsers of frames with fields, when it accepts a buffer,
-- consumes no more than the buffer and gives the same result when more bytes follow.
pub ider_parsers_stream :
    IsStreaming try_parse_open_session_reply
    × IsStreaming try_parse_command_written
    × IsStreaming try_parse_status_data
ider_parsers_stream =
    (open_session_reply-IsStreaming, command_written-IsStreaming, status_data-IsStreaming)
