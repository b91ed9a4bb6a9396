-- ===== src/Ider/Session/Timer.antt =====
-- ider/src/ider_session.cpp: one timer for the read that is under way, whatever happens.
use mesh_commander.Inbox.{drain-keeps}
use mesh_commander.Redir.Link.{Link}
use mesh_commander.Ider.Codec.{
  build_open_session, build_send_data_to_host, build_command_end_response,
}
use mesh_commander.Ider.State.{
  IderSession, Image, Settings, Event, started, client_failed, timer, raw_bytes, not_authenticated,
  cannot_open, client_error, sense_illegal_request, send_data, send_error, is_dma,
}
use mesh_commander.Ider.Commands.{send_next_scsi_chunk}
use mesh_commander.Ider.Session.{
  start, append, reader, drain_inbox, on_raw_bytes, on_timer, on_event, on_events,
}
use mesh_commander.Ider.Session.Keeps.{write_next-Keeps}
use mesh_commander.Ider.Session.Sound.{IsTimed, failed, written, round-Rounds}
use mesh_commander.Prelude.{
  ℕ, ◌+◌, ◌-◌, ◌%◌, ◌^◌, min, ◌≡◌, sym, ap, ◌∙◌, inl, inr, Bool, true, false, not, ◌&&◌, ◌||◌, List,
  [], ◌∷◌, ltb, ◌==◌, if◌then◌else◌, length, Bool-cases, arith,
}

module _ {C : Type 0} (link : Link C) (image : Image) (set : Settings) where
  if-IsTimed :
      (b : Bool) (t u : IderSession C) → IsTimed t → IsTimed u → IsTimed (if b then t else u)
  if-IsTimed true t u h k = h
  if-IsTimed false t u h k = k

  start-IsTimed : (s : IderSession C) → IsTimed s → IsTimed (start link image set s)
  unfolding start
  start-IsTimed s h =
      let t : IderSession C = record s { is_open = true; iso_size = set.file_size; position = 0 } in
      let u : IderSession C = if set.has_path then t else s in
      let open_session : ℕ → List ℕ = λ n. build_open_session n 30000 0 20000 1 in
      if-IsTimed (not (link.is_authenticated s.client)) _ _ ((failed not_authenticated s).sound h) (
        if-IsTimed (set.has_path && not set.can_open) _ _ ((failed cannot_open s).sound h)
          ((written link open_session u).sound (if-IsTimed set.has_path t s h h)))

  -- A session whose timer has just fired.
  chunk-IsTimed :
      (s : IderSession C)
      → s.armed ≡ 0
      → s.in_flight ≡ true
      → IsTimed (send_next_scsi_chunk link image s)
  unfolding send_next_scsi_chunk send_data send_error
  chunk-IsTimed s fired busy =
      let want : ℕ = min s.remaining s.chunk_size in
      let bytes : List ℕ = image.read_at s.position want in
      let left : ℕ = s.remaining - want in
      let read : IderSession C = record s { position = s.position + length bytes } in
      let error : ℕ → List ℕ =
        λ n. build_command_end_response n false sense_illegal_request s.chunk_dev 0x21 0x00 in
      let send : ℕ → List ℕ =
        λ n. build_send_data_to_host n s.chunk_dev (left == 0) bytes (is_dma s.chunk_feature) in
      let refused = write_next-Keeps link error read in
      let sent = write_next-Keeps link send (record read { remaining = left }) in
      if-IsTimed (not s.is_open || (s.remaining == 0)) _ _ fired (
        if-IsTimed (not (length bytes == want)) _ _ (refused.armed_eq ∙ fired) (
          if-IsTimed (ltb 0 left) _ _
            (ap (λ (n : ℕ). n + 1) (sent.armed_eq ∙ fired)
              ∙ sym (ap (λ (b : Bool). if b then 1 else 0) (sent.flight_eq ∙ busy)))
            (sent.armed_eq ∙ fired)))

  timer-IsTimed : (s : IderSession C) → IsTimed s → IsTimed (on_timer link image set s)
  unfolding on_timer
  timer-IsTimed s h = elim (Bool-cases s.in_flight) [
    | inl busy ↦
        let one : s.armed ≡ 1 = h ∙ ap (λ (b : Bool). if b then 1 else 0) busy in
        let u : IderSession C = record s { armed = s.armed - 1 } in
        if-IsTimed (ltb 0 s.armed) _ s (chunk-IsTimed u (omega arith) busy) h
    | inr free ↦
        let none_left : s.armed ≡ 0 = h ∙ ap (λ (b : Bool). if b then 1 else 0) free in
        let off : ltb 0 s.armed ≡ false = ground arith in unset (ltb 0 s.armed) off _ s h
  ]
    where
      unset :
          (b : Bool) → b ≡ false → (t u : IderSession C) → IsTimed u → IsTimed (if b then t else u)
      unset true e t u k = absurd (cc)
      unset false e t u k = k

  bytes-IsTimed :
      (chunk : List ℕ) (s : IderSession C)
      → IsTimed s
      → IsTimed (on_raw_bytes link image set chunk s)
  unfolding on_raw_bytes drain_inbox append
  bytes-IsTimed chunk s h =
      let received : ℕ = (s.bytes_received + length chunk) % 2 ^ 64 in
      drain-keeps (reader link image set) IsTimed (λ t. (round-Rounds link image set t).sound)
        (append link image set chunk (record s { bytes_received = received })) h

  on_event-IsTimed :
      (e : Event) (s : IderSession C) → IsTimed s → IsTimed (on_event link image set e s)
  unfolding on_event
  on_event-IsTimed started s h = start-IsTimed s h
  on_event-IsTimed client_failed s h = (failed client_error s).sound h
  on_event-IsTimed timer s h = timer-IsTimed s h
  on_event-IsTimed (raw_bytes chunk) s h = bytes-IsTimed chunk s h

  -- Whatever is started, received or reported in any order, whenever the timer fires, whichever
  -- writes are refused and whatever the file gives, a session in which one timer is pending
  -- exactly while a read is under way, and none otherwise, stays so.
  pub on_events-IsTimed :
      (events : List Event) (s : IderSession C)
      → IsTimed s
      → IsTimed (on_events link image set events s)
  unfolding on_events
  on_events-IsTimed [] s h = h
  on_events-IsTimed (e ∷ events) s h =
      on_events-IsTimed events (on_event link image set e s) (on_event-IsTimed e s h)
