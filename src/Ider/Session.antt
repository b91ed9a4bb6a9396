-- ===== src/Ider/Session.antt =====
-- ider/src/ider_session.cpp: the session for IDE redirection behind an authenticated client.
pub mod Keeps
pub mod Answered
pub mod Sound
pub mod Timer
pub mod Reads
mod Tests
use mesh_commander.Ider.State.{
  cmd_close, cmd_keep_alive_ping, cmd_reset_occurred, cmd_error_occurred, status_regs_avail,
  status_regs_status, status_regs_toggle, max_read_cap, not_authenticated, cannot_open,
  illegal_buffers, closed_by_device, client_error, unsupported_proto, unknown_command,
  session_opened, enabled_changed, stats_changed, Event, started, client_failed, timer, raw_bytes,
  Image, Settings, IderSession, fail, write_next,
}
use mesh_commander.Ider.Answers.{enable_payload}
use mesh_commander.Ider.Commands.{handle_scsi, send_next_scsi_chunk}
use mesh_commander.Inbox.{Reader, drain}
use mesh_commander.Redir.Link.{Link}
use mesh_commander.Ider.Codec.{
  SessionInfo, peek_tag, try_parse_open_session_reply, try_parse_command_written, try_parse_fixed,
  try_parse_status_data, build_open_session, build_keep_alive_pong, build_reset_response,
  build_enable_features, cmd_open_session_reply, cmd_keep_alive_pong, cmd_status_data,
  cmd_heartbeat, cmd_command_written,
}
use mesh_commander.Prelude.{
  ℕ, ◌+◌, ◌-◌, ◌%◌, ◌^◌, Bool, true, false, not, ◌&&◌, ◌||◌, List, [], ◌∷◌, ◌++◌, none, some, ltb,
  ◌==◌, if◌then◌else◌, length, drop, bit_and,
}

module _ {C : Type 0} (link : Link C) (image : Image) (set : Settings) where
  -- `setFileName` closes the image when it is open, so that `open` is the first again.
  unfoldable pub start : IderSession C → IderSession C
  unfolding fail write_next
  start s =
      let t : IderSession C = record s { is_open = true; iso_size = set.file_size; position = 0 } in
      let u : IderSession C = if set.has_path then t else s in
      if not (link.is_authenticated s.client)
      then fail not_authenticated s
      else if set.has_path && not set.can_open
      then fail cannot_open s
      else write_next link (λ n. build_open_session n 30000 0 20000 1) u

  unfoldable pub write_enable : IderSession C → IderSession C
  unfolding write_next
  write_enable s =
      write_next link
        (λ n. build_enable_features n status_regs_toggle (enable_payload set.start_option)) s

  unfoldable pub on_open_session_reply : SessionInfo → IderSession C → IderSession C
  unfolding fail write_enable
  on_open_session_reply info s =
      if not (info.proto == 0)
      then fail (unsupported_proto info.proto) s
      else if ltb max_read_cap info.read_buffer || ltb max_read_cap info.write_buffer
      then fail illegal_buffers s
      else write_enable
          (record s { info = info; opened = true; signals = session_opened info ∷ s.signals })

  unfoldable pub on_status_data : ℕ → ℕ → IderSession C → IderSession C
  unfolding write_enable
  on_status_data type value s =
      let enabled : Bool = not (bit_and value 0x02 == 0) in
      if type == status_regs_avail
      then if not (bit_and value 0x01 == 0) then write_enable s else s
      else if type == status_regs_status
      then if (enabled && s.enabled) || (not enabled && not s.enabled)
        then s
        else record s { enabled = enabled; signals = enabled_changed enabled ∷ s.signals }
      else s

  -- A frame whose fields are not read, and what is done behind it.
  unfoldable pub fixed_round :
      ℕ → ℕ → (IderSession C → IderSession C) → Bool → IderSession C → IderSession C × Bool
  fixed_round tag size act on s = elim (try_parse_fixed s.inbox tag size) [
    | none ↦ (s, false)
    | some consumed ↦ (act (record s { inbox = drop consumed s.inbox }), on)
  ]

  unfoldable pub open_reply_round : IderSession C → IderSession C × Bool
  unfolding on_open_session_reply
  open_reply_round s = elim (try_parse_open_session_reply s.inbox) [
    | none ↦ (s, false)
    | some (info, consumed) ↦
        (on_open_session_reply info (record s { inbox = drop consumed s.inbox }), true)
  ]

  unfoldable pub status_round : IderSession C → IderSession C × Bool
  unfolding on_status_data
  status_round s = elim (try_parse_status_data s.inbox) [
    | none ↦ (s, false)
    | some (sd, consumed) ↦
        (on_status_data sd.type sd.value (record s { inbox = drop consumed s.inbox }), true)
  ]

  unfoldable pub command_round : IderSession C → IderSession C × Bool
  unfolding handle_scsi
  command_round s = elim (try_parse_command_written s.inbox) [
    | none ↦ (s, false)
    | some (cmd, consumed) ↦
        (handle_scsi link image cmd (record s { inbox = drop consumed s.inbox }), true)
  ]

  -- One round of the loop of drainInbox. True means that it goes on.
  unfoldable pub round : IderSession C → IderSession C × Bool
  unfolding open_reply_round status_round command_round fixed_round fail write_next
  round s =
      let tag : ℕ = peek_tag s.inbox in
      if tag == cmd_open_session_reply
      then open_reply_round s
      else if tag == cmd_close
      then fixed_round cmd_close 8 (fail closed_by_device) false s
      else if tag == cmd_keep_alive_ping
      then fixed_round cmd_keep_alive_ping 8 (write_next link build_keep_alive_pong) true s
      else if tag == cmd_keep_alive_pong
      then fixed_round cmd_keep_alive_pong 8 (λ t. t) true s
      else if tag == cmd_reset_occurred
      then fixed_round cmd_reset_occurred 9 (write_next link build_reset_response) true s
      else if tag == cmd_status_data
      then status_round s
      else if tag == cmd_error_occurred
      then fixed_round cmd_error_occurred 11 (λ t. t) true s
      else if tag == cmd_heartbeat
      then fixed_round cmd_heartbeat 8 (λ t. t) true s
      else if tag == cmd_command_written
      then command_round s
      else (fail (unknown_command tag) s, false)

  unfoldable pub append : List ℕ → IderSession C → IderSession C
  append chunk s = record s { inbox = s.inbox ++ chunk }

  abbrev pub reader : Reader (IderSession C)
  reader = record { inbox = λ s. s.inbox; append = append; round = round }

  unfoldable pub drain_inbox : IderSession C → IderSession C
  drain_inbox s = drain reader s

  unfoldable pub on_raw_bytes : List ℕ → IderSession C → IderSession C
  unfolding drain_inbox append
  on_raw_bytes chunk s =
      let received : ℕ = (s.bytes_received + length chunk) % 2 ^ 64 in
      let t : IderSession C = drain_inbox (append chunk (record s { bytes_received = received })) in
      record t { signals = stats_changed t.bytes_sent t.bytes_received ∷ t.signals }

  -- A single-shot timer that is pending fires.
  unfoldable pub on_timer : IderSession C → IderSession C
  unfolding send_next_scsi_chunk
  on_timer s =
      if ltb 0 s.armed
      then send_next_scsi_chunk link image (record s { armed = s.armed - 1 })
      else s

  -- What is called from outside, in any order.
  unfoldable pub on_event : Event → IderSession C → IderSession C
  unfolding start fail on_timer on_raw_bytes
  on_event started s = start s
  on_event client_failed s = fail client_error s
  on_event timer s = on_timer s
  on_event (raw_bytes chunk) s = on_raw_bytes chunk s

  unfoldable pub on_events : List Event → IderSession C → IderSession C
  unfolding on_event
  on_events [] s = s
  on_events (e ∷ events) s = on_events events (on_event e s)
