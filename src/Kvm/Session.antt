-- ===== src/Kvm/Session.antt =====
-- kvm/src/kvm_session.cpp: the RFB handshake and the frame loop. The connection is a parameter that says
-- of each write, counted from the first, whether writeRaw takes the frame; the frames that it takes and
-- the signals are lists, the latest first. `queued` counts the drainInbox calls that the event loop
-- still has to make.
pub mod Fields
pub mod Steps
pub mod Fits
pub mod Opening
pub mod Handshake
pub mod Refusals
use mesh_commander.Prelude.{
  [], ℕ, zero, suc, ◌+◌, ◌-◌, ◌*◌, not, ◌&&◌, ◌||◌, List, ◌∷◌, ◌++◌, Option, none, some, ltb, ◌==◌,
  Bool, true, false, if◌then◌else◌, length, get_or, drop,
}
use mesh_commander.Kvm.Codec.{
  PixelFormat, rgb565, rgb332, max_display_buffer_bytes, display_buffer_bytes, choose_format_for,
  read32_be, build_version_response, try_parse_security_types, build_security_choice,
  try_parse_security_result, build_client_init, ServerInit, try_parse_server_init,
  build_set_pixel_format, build_set_encodings, build_kvm_ext_cmd, build_framebuffer_update_request,
  build_key_event, build_pointer_event, try_parse_frame_update, RectHeader, try_parse_rect_header,
}
use mesh_commander.Kvm.Rects.{
  ok, need_more, unsupported_encoding, unsupported_subencoding, malformed, Image, Outcome, decoded,
  desktop_size, nothing, undefined, failed_with, try_decode_rect,
}

pub data State : Type 0 where
  idle version security auth_result server_init frame_loop failed : State

-- The reasons that fail() is given.
pub data Reason : Type 0 where
  not_authenticated auth_failed write_failed subencoding malformed_rect display_too_big
        client_error :
      Reason
  encoding cut_text_length unknown_message : ℕ → Reason

pub data Signal : Type 0 where
  state_changed : State → Signal
  desktop_resized : ℕ → ℕ → Signal
  pixel_format_changed : PixelFormat → Signal
  tile_updated : ℕ → ℕ → Image → Signal
  bell : Signal
  closed : Reason → Signal

pub record KvmSession (Stream : Type 0) : Type 0 where
  pub inbox : List ℕ
  pub state : State
  pub width : ℕ
  pub height : ℕ
  pub format : PixelFormat
  pub preferred_format : Option PixelFormat
  pub pending_rects : ℕ
  pub compression_enabled : Bool
  pub stream : Stream
  pub writes : ℕ
  pub sent : List (List ℕ)
  pub signals : List Signal
  pub queued : ℕ

pub data Event : Type 0 where
  started : Bool → Bool → Event
  raw_bytes : List ℕ → Event
  queued_drain client_failed ctrl_alt_del refresh : Event
  prefer : Option PixelFormat → Event
  key : ℕ → Bool → Event
  pointer : ℕ → ℕ → ℕ → Event

unfoldable pub state_code : State → ℕ
state_code idle = 0
state_code version = 1
state_code security = 2
state_code auth_result = 3
state_code server_init = 4
state_code frame_loop = 5
state_code failed = 6

unfoldable pub is_wide : PixelFormat → Bool
is_wide rgb565 = true
is_wide rgb332 = false

unfoldable pub same_format : PixelFormat → PixelFormat → Bool
unfolding is_wide
same_format rgb565 f = is_wide f
same_format rgb332 f = not (is_wide f)

unfoldable pub value_or : Option PixelFormat → PixelFormat → PixelFormat
value_or none f = f
value_or (some g) f = g

module _ {Stream : Type 0} where
  unfoldable pub set_state : State → KvmSession Stream → KvmSession Stream
  unfolding state_code
  set_state t s =
      if state_code t == state_code s.state
      then s
      else record s { state = t; signals = state_changed t ∷ s.signals }

  unfoldable pub fail : Reason → KvmSession Stream → KvmSession Stream
  unfolding set_state
  fail reason s =
      let t : KvmSession Stream = set_state failed s in
      record t { signals = closed reason ∷ t.signals }

  -- `reset` is InflateStream::reset; `authenticated` and `compression` are what the client and the
  -- environment say.
  unfoldable pub start : (Stream → Stream) → Bool → Bool → KvmSession Stream → KvmSession Stream
  unfolding set_state fail
  start reset authenticated compression s =
      if not authenticated
      then fail not_authenticated s
      else set_state version
          (record s { stream = reset s.stream; format = rgb565; compression_enabled = compression })

  unfoldable pub if_looping :
      (KvmSession Stream → KvmSession Stream) → KvmSession Stream → KvmSession Stream
  unfolding state_code
  if_looping act s = if state_code s.state == state_code frame_loop then act s else s

module _ {Stream : Type 0} (accepts : ℕ → List ℕ → Bool) where
  unfoldable pub write_frame : List ℕ → KvmSession Stream → KvmSession Stream
  unfolding fail
  write_frame frame s =
      let t : KvmSession Stream = record s { writes = s.writes + 1 } in
      if accepts s.writes frame then record t { sent = frame ∷ s.sent } else fail write_failed t

  -- The end of negotiatePixelFormat for a format that fits.
  unfoldable pub pin_format : PixelFormat → KvmSession Stream → KvmSession Stream
  unfolding same_format write_frame
  pin_format wanted s =
      let t : KvmSession Stream =
        write_frame (build_set_pixel_format wanted) (record s { format = wanted }) in
      if same_format wanted s.format
      then t
      else record t { signals = pixel_format_changed wanted ∷ t.signals }

  unfoldable pub negotiate_pixel_format : KvmSession Stream → KvmSession Stream × Bool
  unfolding fail pin_format value_or
  negotiate_pixel_format s =
      let wanted : PixelFormat = value_or s.preferred_format (choose_format_for s.width s.height) in
      if s.width == 0 || s.height == 0
      then (s, true)
      else if ltb max_display_buffer_bytes (display_buffer_bytes wanted s.width s.height)
      then (fail display_too_big s, false)
      else (pin_format wanted s, true)

  unfoldable pub request_incremental : KvmSession Stream → KvmSession Stream
  unfolding write_frame
  request_incremental s = write_frame (build_framebuffer_update_request true 0 0 s.width s.height) s

  unfoldable pub request_full : KvmSession Stream → KvmSession Stream
  unfolding write_frame
  request_full s = write_frame (build_framebuffer_update_request false 0 0 s.width s.height) s

  -- The four states of stepHandshake. True means that the loop goes on.
  unfoldable pub step_version : KvmSession Stream → KvmSession Stream × Bool
  unfolding write_frame set_state
  step_version s = if ltb (length s.inbox) 12 then (s, false) else (
    set_state security (write_frame build_version_response (record s { inbox = drop 12 s.inbox })),
    true,
  )

  unfoldable pub step_security : KvmSession Stream → KvmSession Stream × Bool
  unfolding write_frame set_state
  step_security s =
      let n : ℕ = try_parse_security_types s.inbox in
      if n == 0 then (s, false) else (
        set_state auth_result
            (write_frame build_security_choice (record s { inbox = drop n s.inbox })),
        true,
      )

  unfoldable pub step_auth_result : KvmSession Stream → KvmSession Stream × Bool
  unfolding write_frame set_state fail
  step_auth_result s =
      let result : Bool × ℕ = try_parse_security_result s.inbox in
      if result.1 == 0 then (s, false) else if not result.0 then (fail auth_failed s, false) else (
        set_state server_init
            (write_frame build_client_init (record s { inbox = drop result.1 s.inbox })),
        true,
      )

  -- Behind negotiatePixelFormat.
  unfoldable pub configure : KvmSession Stream → KvmSession Stream
  unfolding write_frame set_state request_full
  configure s =
      let encodings : KvmSession Stream = write_frame build_set_encodings s in
      let compression : KvmSession Stream =
        write_frame (build_kvm_ext_cmd 4 (if encodings.compression_enabled then 1 else 0))
          encodings in
      set_state frame_loop (request_full compression)

  unfoldable pub on_server_init : ServerInit → ℕ → KvmSession Stream → KvmSession Stream × Bool
  unfolding negotiate_pixel_format configure
  on_server_init info consumed s =
      let r : KvmSession Stream × Bool = negotiate_pixel_format (record s {
        inbox = drop consumed s.inbox;
        width = info.width;
        height = info.height;
        signals = desktop_resized info.width info.height ∷ s.signals;
      }) in
      if r.1 then (configure r.0, true) else (r.0, false)

  unfoldable pub step_server_init : KvmSession Stream → KvmSession Stream × Bool
  unfolding on_server_init
  step_server_init s = elim (try_parse_server_init s.inbox) [
    | none ↦ (s, false)
    | some (info, consumed) ↦ on_server_init info consumed s
  ]

  unfoldable pub finish_rect : ℕ → KvmSession Stream → KvmSession Stream
  unfolding request_incremental
  finish_rect consumed s =
      let t : KvmSession Stream = record s {
        inbox = drop consumed s.inbox;
        pending_rects = s.pending_rects - 1;
      } in
      if t.pending_rects == 0 then request_incremental t else t

  -- A DesktopSize rectangle.
  unfoldable pub on_desktop_size : RectHeader → ℕ → KvmSession Stream → KvmSession Stream × Bool
  unfolding negotiate_pixel_format request_full
  on_desktop_size rect consumed s =
      let r : KvmSession Stream × Bool = negotiate_pixel_format (record s {
        width = rect.w;
        height = rect.h;
        signals = desktop_resized rect.w rect.h ∷ s.signals;
      }) in
      let t : KvmSession Stream = record (r.0) {
        inbox = drop consumed (r.0).inbox;
        pending_rects = (r.0).pending_rects - 1;
      } in
      if not r.1
      then (r.0, false)
      else if t.pending_rects == 0
      then (request_full t, true)
      else (t, true)

  -- What stepFrameLoop does with the status of tryDecodeRect; the stream is that behind the call.
  unfoldable pub on_outcome : RectHeader → Outcome → KvmSession Stream → KvmSession Stream × Bool
  unfolding fail on_desktop_size finish_rect
  on_outcome rect (decoded image consumed) s = (
    finish_rect (12 + consumed)
        (record s { signals = tile_updated rect.x rect.y image ∷ s.signals }),
    true,
  )
  on_outcome rect desktop_size s = on_desktop_size rect 12 s
  on_outcome rect nothing s = (finish_rect 12 s, true)
  on_outcome rect undefined s = (s, false)
  on_outcome rect (failed_with ok) s = (s, false)
  on_outcome rect (failed_with need_more) s = (s, false)
  on_outcome rect (failed_with unsupported_encoding) s = (fail (encoding rect.encoding) s, false)
  on_outcome rect (failed_with unsupported_subencoding) s = (fail subencoding s, false)
  on_outcome rect (failed_with malformed) s = (fail malformed_rect s, false)

  unfoldable pub step_cut_text : KvmSession Stream → KvmSession Stream × Bool
  unfolding fail
  step_cut_text s =
      let len : ℕ = read32_be s.inbox 4 in
      if ltb (length s.inbox) 8
      then (s, false)
      else if ltb (1024 * 1024) len
      then (fail (cut_text_length len) s, false)
      else if ltb (length s.inbox) (8 + len)
      then (s, false)
      else (record s { inbox = drop (8 + len) s.inbox }, true)

  unfoldable pub step_update : KvmSession Stream → KvmSession Stream × Bool
  step_update s = elim (try_parse_frame_update s.inbox) [
    | none ↦ (s, false)
    | some (num_rects, consumed) ↦
        (record s { inbox = drop consumed s.inbox; pending_rects = num_rects }, true)
  ]

  unfoldable pub step_message : ℕ → KvmSession Stream → KvmSession Stream × Bool
  unfolding step_update step_cut_text fail
  step_message tag s =
      if tag == 0
      then step_update s
      else if tag == 2
      then (record s { inbox = drop 1 s.inbox; signals = bell ∷ s.signals }, true)
      else if tag == 3
      then step_cut_text s
      else (fail (unknown_message tag) s, false)

  unfoldable pub send_key : ℕ → Bool → KvmSession Stream → KvmSession Stream
  unfolding if_looping write_frame
  send_key keysym down s = if_looping (write_frame (build_key_event keysym down)) s

  unfoldable pub send_pointer : ℕ → ℕ → ℕ → KvmSession Stream → KvmSession Stream
  unfolding if_looping write_frame
  send_pointer button_mask x y s = if_looping (write_frame (build_pointer_event button_mask x y)) s

  unfoldable pub send_ctrl_alt_del : KvmSession Stream → KvmSession Stream
  unfolding send_key
  send_ctrl_alt_del s = send_key 0xFFE3 false (
      send_key 0xFFE9 false (
        send_key 0xFFFF false
          (send_key 0xFFFF true (send_key 0xFFE9 true (send_key 0xFFE3 true s)))))

  unfoldable pub request_full_refresh : KvmSession Stream → KvmSession Stream
  unfolding if_looping request_full
  request_full_refresh s = if_looping request_full s

-- The session's stream behind a call that was given it.
unfoldable pub stream_or : {Stream : Type 0} → Option Stream → Stream → Stream
stream_or none z = z
stream_or (some y) z = y

module _ {Stream : Type 0} (accepts : ℕ → List ℕ → Bool)
    (inflate : Stream → List ℕ → Bool × List ℕ × Stream) where
  unfoldable pub step_rect : KvmSession Stream → KvmSession Stream × Bool
  unfolding on_outcome stream_or
  step_rect s = elim (try_parse_rect_header s.inbox) [
    | none ↦ (s, false)
    | some (rect, header) ↦
        let r : Outcome × Option Stream =
          try_decode_rect inflate (drop header s.inbox) rect s.format (some s.stream) in
        on_outcome accepts rect (r.0) (record s { stream = stream_or (r.1) s.stream })
  ]

  unfoldable pub step_frame_loop : KvmSession Stream → KvmSession Stream × Bool
  unfolding step_rect step_message
  step_frame_loop s =
      if ltb 0 s.pending_rects
      then step_rect s
      else if length s.inbox == 0
      then (s, false)
      else step_message accepts (get_or s.inbox 0 0) s

  unfoldable pub step_in : State → KvmSession Stream → KvmSession Stream × Bool
  unfolding step_version step_security step_auth_result step_server_init step_frame_loop
  step_in idle s = (s, false)
  step_in version s = step_version accepts s
  step_in security s = step_security accepts s
  step_in auth_result s = step_auth_result accepts s
  step_in server_init s = step_server_init accepts s
  step_in frame_loop s = step_frame_loop s
  step_in failed s = (s, false)

  -- The loop of drainInbox. True means that it has made all its rounds.
  unfoldable pub drain_rounds : ℕ → KvmSession Stream → KvmSession Stream × Bool
  unfolding step_in
  drain_rounds zero s = (s, true)
  drain_rounds (suc n) s = elim (step_in s.state s).1 [
    | true ↦ drain_rounds n (step_in s.state s).0
    | false ↦ ((step_in s.state s).0, false)
  ]

  unfoldable pub drain_inbox : KvmSession Stream → KvmSession Stream
  unfolding drain_rounds
  drain_inbox s =
      let r : KvmSession Stream × Bool = drain_rounds 16 s in
      if r.1 && ltb 0 (length (r.0).inbox) then record (r.0) { queued = (r.0).queued + 1 } else r.0

  unfoldable pub on_raw_bytes : List ℕ → KvmSession Stream → KvmSession Stream
  unfolding drain_inbox
  on_raw_bytes chunk s = drain_inbox (record s { inbox = s.inbox ++ chunk })

  -- A queued call of drainInbox.
  unfoldable pub on_queued : KvmSession Stream → KvmSession Stream
  unfolding drain_inbox
  on_queued s = if s.queued == 0 then s else drain_inbox (record s { queued = s.queued - 1 })

  -- What is called from outside: by the client, the event loop and the viewer.
  unfoldable pub on_event : (Stream → Stream) → Event → KvmSession Stream → KvmSession Stream
  unfolding start on_raw_bytes on_queued fail send_key send_pointer send_ctrl_alt_del
      request_full_refresh
  on_event reset (started authenticated compression) s = start reset authenticated compression s
  on_event reset (raw_bytes chunk) s = on_raw_bytes chunk s
  on_event reset queued_drain s = on_queued s
  on_event reset client_failed s = fail client_error s
  on_event reset (prefer f) s = record s { preferred_format = f }
  on_event reset (key keysym down) s = send_key accepts keysym down s
  on_event reset (pointer button_mask x y) s = send_pointer accepts button_mask x y s
  on_event reset ctrl_alt_del s = send_ctrl_alt_del accepts s
  on_event reset refresh s = request_full_refresh accepts s

  unfoldable pub on_events : (Stream → Stream) → List Event → KvmSession Stream → KvmSession Stream
  unfolding on_event
  on_events reset [] s = s
  on_events reset (e ∷ es) s = on_events reset es (on_event reset e s)
