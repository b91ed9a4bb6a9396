-- ===== src/Kvm/Session/Fits.antt =====
-- kvm/src/kvm_session.cpp: the display buffer of the firmware is never exceeded.
use mesh_commander.Kvm.Session.Steps.{
  IsWithin, fail-IsWithin, if-IsWithin, if_looping-IsWithin, write_frame-IsWithin,
  on_outcome-IsWithin, entered, step_message-IsWithin, step_version-IsWithin,
  step_security-IsWithin, step_auth_result-IsWithin, step_server_init-IsWithin,
}
use mesh_commander.Kvm.Session.{
  request_full, started, raw_bytes, queued_drain, client_failed, ctrl_alt_del, refresh, prefer, key,
  pointer, Event, on_event, on_events, on_raw_bytes, on_queued, start, send_key, send_pointer,
  send_ctrl_alt_del, request_full_refresh, client_error, not_authenticated, not_authenticated,
  client_error, Event, started, raw_bytes, queued_drain, client_failed, ctrl_alt_del, refresh,
  prefer, key, pointer, on_event, on_events, stream_or, step_frame_loop, step_rect, step_in,
  drain_rounds, drain_inbox, on_raw_bytes, on_queued, start, send_key, send_pointer,
  send_ctrl_alt_del, request_full_refresh, drop, State, idle, version, security, auth_result,
  server_init, frame_loop, failed, KvmSession, write_frame, request_full,
}
use mesh_commander.Kvm.Codec.{
  build_framebuffer_update_request, build_pointer_event, build_key_event, rgb565,
  try_parse_rect_header,
}
use mesh_commander.Kvm.Rects.{try_decode_rect}
use mesh_commander.Prelude.{
  ℕ, zero, suc, ◌-◌, inl, inr, Bool, true, false, ◌&&◌, List, [], ◌∷◌, ◌++◌, some, ltb, ◌==◌,
  length, get_or, Bool-cases, Option-cases,
}

module _ {Stream : Type 0} where
  module _ (accepts : ℕ → List ℕ → Bool) (inflate : Stream → List ℕ → Bool × List ℕ × Stream) where
    step_rect-IsWithin :
        (s : KvmSession Stream) → IsWithin s → IsWithin (step_rect accepts inflate s).0
    unfolding step_rect
    step_rect-IsWithin s h = elim (Option-cases (try_parse_rect_header s.inbox)) [
      | inl e ↦ rw (e, step_rect) h
      | inr ((rect, header), e) ↦
          let r = try_decode_rect inflate (drop header s.inbox) rect s.format (some s.stream) in
          rw (e, step_rect)
            (on_outcome-IsWithin accepts rect r.0 (record s { stream = stream_or r.1 s.stream }) h)
    ]

    step_frame_loop-IsWithin :
        (s : KvmSession Stream) → IsWithin s → IsWithin (step_frame_loop accepts inflate s).0
    unfolding step_frame_loop
    step_frame_loop-IsWithin s h =
        if-IsWithin (ltb 0 s.pending_rects) _ _ (step_rect-IsWithin s h) (
          if-IsWithin (length s.inbox == 0) _ _ h
            (step_message-IsWithin accepts (get_or s.inbox 0 0) s h))

    step_in-IsWithin :
        (t : State) (s : KvmSession Stream) → IsWithin s → IsWithin (step_in accepts inflate t s).0
    unfolding step_in
    step_in-IsWithin idle s h = h
    step_in-IsWithin version s h = step_version-IsWithin accepts s h
    step_in-IsWithin security s h = step_security-IsWithin accepts s h
    step_in-IsWithin auth_result s h = step_auth_result-IsWithin accepts s h
    step_in-IsWithin server_init s h = step_server_init-IsWithin accepts s h
    step_in-IsWithin frame_loop s h = step_frame_loop-IsWithin s h
    step_in-IsWithin failed s h = h

    drain_rounds-IsWithin :
        (n : ℕ) (s : KvmSession Stream) → IsWithin s → IsWithin (drain_rounds accepts inflate n s).0
    unfolding drain_rounds
    drain_rounds-IsWithin zero s h = h
    drain_rounds-IsWithin (suc n) s h =
        let t = (step_in accepts inflate s.state s).0 in
        let keep = step_in-IsWithin s.state s h in
        elim (Bool-cases (step_in accepts inflate s.state s).1) [
          | inl e ↦ rw (e, drain_rounds) (drain_rounds-IsWithin n t keep)
          | inr e ↦ rw (e, drain_rounds) keep
        ]

    drain_inbox-IsWithin :
        (s : KvmSession Stream) → IsWithin s → IsWithin (drain_inbox accepts inflate s)
    unfolding drain_inbox
    drain_inbox-IsWithin s h =
        let r = drain_rounds accepts inflate 16 s in
        let keep = drain_rounds-IsWithin 16 s h in
        elim (Bool-cases (r.1 && ltb 0 (length (r.0).inbox))) [
          | inl e ↦ rw (e, drain_inbox) keep
          | inr e ↦ rw (e, drain_inbox) keep
        ]

    start-IsWithin :
        (reset : Stream → Stream) (authenticated compression : Bool) (s : KvmSession Stream)
        → IsWithin (start reset authenticated compression s)
    unfolding start
    start-IsWithin reset true compression s =
        entered accepts version
          (record s { stream = reset s.stream; format = rgb565; compression_enabled = compression })
          (λ P. tt)
    start-IsWithin reset false compression s = fail-IsWithin not_authenticated s

    send_key-IsWithin :
        (keysym : ℕ) (down : Bool) (s : KvmSession Stream)
        → IsWithin s
        → IsWithin (send_key accepts keysym down s)
    unfolding send_key
    send_key-IsWithin keysym down s h =
        if_looping-IsWithin (write_frame accepts (build_key_event keysym down)) s h
          (write_frame-IsWithin accepts (build_key_event keysym down) s h)

    send_ctrl_alt_del-IsWithin :
        (s : KvmSession Stream) → IsWithin s → IsWithin (send_ctrl_alt_del accepts s)
    unfolding send_ctrl_alt_del
    send_ctrl_alt_del-IsWithin s h = send_key-IsWithin 0xFFE3 false _ (
        send_key-IsWithin 0xFFE9 false _ (
          send_key-IsWithin 0xFFFF false _ (
            send_key-IsWithin 0xFFFF true _
              (send_key-IsWithin 0xFFE9 true _ (send_key-IsWithin 0xFFE3 true s h)))))

    -- Each event.
    pub on_event-IsWithin :
        (reset : Stream → Stream) (e : Event) (s : KvmSession Stream)
        → IsWithin s
        → IsWithin (on_event accepts inflate reset e s)
    unfolding on_event on_raw_bytes on_queued send_pointer request_full_refresh request_full
    on_event-IsWithin reset (started authenticated compression) s h =
        start-IsWithin reset authenticated compression s
    on_event-IsWithin reset (raw_bytes chunk) s h =
        drain_inbox-IsWithin (record s { inbox = s.inbox ++ chunk }) h
    on_event-IsWithin reset queued_drain s h = elim (Bool-cases (s.queued == 0)) [
      | inl e ↦ rw (e, on_event, on_queued) h
      | inr e ↦
          rw (e, on_event, on_queued) (drain_inbox-IsWithin (record s { queued = s.queued - 1 }) h)
    ]
    on_event-IsWithin reset client_failed s h = fail-IsWithin client_error s
    on_event-IsWithin reset (prefer f) s h = h
    on_event-IsWithin reset (key keysym down) s h = send_key-IsWithin keysym down s h
    on_event-IsWithin reset (pointer button_mask x y) s h =
        if_looping-IsWithin (write_frame accepts (build_pointer_event button_mask x y)) s h
          (write_frame-IsWithin accepts (build_pointer_event button_mask x y) s h)
    on_event-IsWithin reset ctrl_alt_del s h = send_ctrl_alt_del-IsWithin s h
    on_event-IsWithin reset refresh s h = if_looping-IsWithin (request_full accepts) s h (
        write_frame-IsWithin accepts (build_framebuffer_update_request false 0 0 s.width s.height) s
          h)

    -- Whatever is started, received, typed or chosen in any order, whichever writes are refused
    -- and whatever inflate gives, a session that is in the frame loop only with a desktop that
    -- fits stays so: its desktop is empty or its size in its pixel format is within the
    -- firmware's 9216000 bytes.
    pub on_events-IsWithin :
        (reset : Stream → Stream) (events : List Event) (s : KvmSession Stream)
        → IsWithin s
        → IsWithin (on_events accepts inflate reset events s)
    unfolding on_events
    on_events-IsWithin reset [] s h = h
    on_events-IsWithin reset (e ∷ events) s h =
        on_events-IsWithin reset events (on_event accepts inflate reset e s)
          (on_event-IsWithin reset e s h)
