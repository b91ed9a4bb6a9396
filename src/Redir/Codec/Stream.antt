-- ===== src/Redir/Codec/Stream.antt =====
-- The parsers of redir/src/redir_codec.cpp on a stream that arrives in pieces.
use mesh_commander.Prelude.{
  ℕ, ◌+◌, ◌^◌, ◌≤◌, ◌<◌, ◌≡◌, refl, List, [], ◌∷◌, ◌++◌, some, length, get_or, arith, length-append,
  get_or-append_left, slice-append_left, take-append,
}
use mesh_commander.Wire.{
  IsStreaming, read16_le, read32_le, read16_le-append, read32_le-append, pack16_le,
  read16_le-pack16_le,
}
use mesh_commander.Redir.Codec.{Qt, AuthReply, try_parse_start_session_reply, try_parse_auth_reply}
use mesh_commander.Redir.Serial.{try_parse_sol_open_reply, try_parse_sol_display_data}

start_session_reply-IsStreaming : IsStreaming try_parse_start_session_reply
unfolding try_parse_start_session_reply
start_session_reply-IsStreaming buffer more a consumed e = ground (
  arith,
  length-append buffer more,
  get_or-append_left buffer more 0 0,
  get_or-append_left buffer more 1 0,
  get_or-append_left buffer more 12 0,
  slice-append_left 13 (get_or buffer 12 0) buffer more,
)

pub sol_open_reply-IsStreaming : IsStreaming try_parse_sol_open_reply
unfolding try_parse_sol_open_reply
sol_open_reply-IsStreaming buffer more a consumed e = ground (
  arith,
  length-append buffer more,
  get_or-append_left buffer more 0 0,
  get_or-append_left buffer more 9 0,
)

pub sol_display_data-IsStreaming : IsStreaming try_parse_sol_display_data
unfolding try_parse_sol_display_data
sol_display_data-IsStreaming buffer more a consumed e = ground (
  arith,
  length-append buffer more,
  get_or-append_left buffer more 0 0,
  read16_le-append buffer more 8,
  slice-append_left 10 (read16_le buffer 8) buffer more,
)

auth_reply-IsStreaming : (qt : Qt) → IsStreaming (try_parse_auth_reply qt)
unfolding try_parse_auth_reply
auth_reply-IsStreaming qt buffer more a consumed e = ground (
  arith,
  length-append buffer more,
  get_or-append_left buffer more 0 0,
  get_or-append_left buffer more 1 0,
  get_or-append_left buffer more 4 0,
  read32_le-append buffer more 5,
  slice-append_left 9 (read32_le buffer 5) buffer more,
)

-- Each of the four redirection parsers, when it accepts a buffer, consumes no more than the
-- buffer and gives the same result when more bytes follow.
pub redir_parsers_stream :
    (qt : Qt)
    → IsStreaming try_parse_start_session_reply
      × IsStreaming (try_parse_auth_reply qt)
      × IsStreaming try_parse_sol_open_reply
      × IsStreaming try_parse_sol_display_data
redir_parsers_stream qt = (
  start_session_reply-IsStreaming,
  auth_reply-IsStreaming qt,
  sol_open_reply-IsStreaming,
  sol_display_data-IsStreaming,
)

-- An authentication reply that is accepted consumes at least 9 and at most 65545 bytes, and no
-- more than the buffer holds.
pub try_parse_auth_reply_bounds :
    (qt : Qt) (buffer : List ℕ) (reply : AuthReply) (consumed : ℕ)
    → try_parse_auth_reply qt buffer ≡ some (reply, consumed)
    → (consumed ≤ 9 + 65536) × (consumed ≤ length buffer) × (9 ≤ consumed)
unfolding try_parse_auth_reply
try_parse_auth_reply_bounds qt buffer reply consumed e = ground arith

-- A frame of terminal output, as the management engine sends it.
abbrev pub encode_display_data : List ℕ → List ℕ
encode_display_data payload =
    0x2A ∷ 0 ∷ 0 ∷ 0 ∷ 0 ∷ 0 ∷ 0 ∷ 0 ∷ (pack16_le (length payload) ++ payload)

-- A display data frame of a payload below 65536 bytes is parsed back to the payload, whatever
-- follows it, and exactly its own bytes are consumed.
pub parse-encode_display_data :
    (payload rest : List ℕ)
    → length payload < 2 ^ 16
    → try_parse_sol_display_data (encode_display_data payload ++ rest)
      ≡ some (payload, 10 + length payload)
unfolding try_parse_sol_display_data pack16_le read16_le
parse-encode_display_data payload rest h = ground (
  arith,
  read16_le-pack16_le (length payload) [] h,
  length-append payload rest,
  take-append payload rest (length payload) refl,
)
