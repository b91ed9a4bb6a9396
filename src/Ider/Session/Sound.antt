-- ===== src/Ider/Session/Sound.antt =====
-- ider/src/ider_session.cpp: one timer for the read that is under way, and the end of drainInbox.
use mesh_commander.Inbox.{rounds, rounds_end}
use mesh_commander.Redir.Link.{Link}
use mesh_commander.Ider.Codec.{
  StatusData, ScsiCommand, SessionInfo, try_parse_open_session_reply, try_parse_command_written,
  try_parse_status_data, try_parse_fixed, build_enable_features, build_keep_alive_pong,
  build_reset_response, cmd_open_session_reply, cmd_keep_alive_pong, cmd_status_data, cmd_heartbeat,
  cmd_command_written, peek_tag,
}
use mesh_commander.Ider.Answers.{enable_payload}
use mesh_commander.Ider.State.{
  IderSession, Image, Settings, Reason, closed_by_device, unknown_command, interleaved_reads,
  session_opened, max_read_cap, status_regs_avail, status_regs_status, status_regs_toggle,
  cmd_close, cmd_keep_alive_ping, cmd_reset_occurred, cmd_error_occurred, fail, write_next,
}
use mesh_commander.Ider.Commands.{handle_scsi}
use mesh_commander.Ider.Commands.Branches.{handle_scsi-P}
use mesh_commander.Ider.Session.{
  drop, bit_and, write_enable, on_open_session_reply, on_status_data, fixed_round, open_reply_round,
  status_round, command_round, round, reader,
}
use mesh_commander.Ider.Session.Keeps.{Keeps, fail-Keeps, write_next-Keeps}
use mesh_commander.Prelude.{
  length-drop, ℕ, suc, ◌+◌, ◌≤◌, ◌<◌, ◌≡◌, refl, ap, ◌∙◌, inl, inr, Bool, true, false, not, ◌&&◌,
  ◌||◌, List, ◌∷◌, some, ltb, ◌==◌, if◌then◌else◌, length, Bool-cases, Option-cases, arith,
}

-- A timer is pending exactly while a read is under way, and never two.
abbrev pub IsTimed : {C : Type 0} → IderSession C → Type 0
IsTimed s = s.armed ≡ (if s.in_flight then 1 else 0)

-- The same bytes, and soundness kept.
pub record Goes {C : Type 0} (s t : IderSession C) : Type 0 where
  pub inbox_eq : t.inbox ≡ s.inbox
  pub sound : IsTimed s → IsTimed t

module _ {C : Type 0} where
  pub kept : (s t : IderSession C) → Keeps s t → Goes s t
  kept s t h = record { inbox_eq = h.inbox_eq; sound = λ k. rw (h.armed_eq, h.flight_eq) k }

  pub if-Goes :
      (s : IderSession C) (b : Bool) (t u : IderSession C)
      → Goes s t
      → Goes s u
      → Goes s (if b then t else u)
  if-Goes s true t u h k = h
  if-Goes s false t u h k = k

  pub same : (s : IderSession C) → Goes s s
  same s = record { inbox_eq = refl; sound = λ k. k }

  pub failed : (reason : Reason) (s : IderSession C) → Goes s (fail reason s)
  failed reason s = kept s (fail reason s) (fail-Keeps reason s)

module _ {C : Type 0} (link : Link C) where
  pub written : (build : ℕ → List ℕ) (s : IderSession C) → Goes s (write_next link build s)
  written build s = kept s (write_next link build s) (write_next-Keeps link build s)

  readied :
      (build : ℕ → List ℕ) (s : IderSession C)
      → Goes s (write_next link build (record s { cd_ready = true }))
  readied build s =
      let h = written build (record s { cd_ready = true }) in
      record { inbox_eq = h.inbox_eq; sound = h.sound }

one_more : {C : Type 0} (s : IderSession C) → IsTimed s → s.in_flight ≡ false → s.armed + 1 ≡ 1
one_more s k free = ap (λ (n : ℕ). n + 1) (k ∙ ap (λ (b : Bool). if b then 1 else 0) free)

module _ {C : Type 0} (link : Link C) (image : Image) where
  command-Goes : (cmd : ScsiCommand) (s : IderSession C) → Goes s (handle_scsi link image cmd s)
  unfolding handle_scsi
  command-Goes cmd s = elim (Bool-cases (length cmd.cdb == 0)) [
    | inl e ↦ rw (e, handle_scsi) (same s)
    | inr e ↦
        handle_scsi-P link image Goes (λ build s answers. written link build s)
          (λ build s answers. readied link build s)
          (λ position remaining dev feature size s free. record {
            inbox_eq = refl;
            sound = λ k. one_more s k free;
          })
          (λ s busy. failed interleaved_reads s) cmd s e
  ]

module _ {C : Type 0} (link : Link C) (image : Image) (set : Settings) where
  enabled-Goes : (s : IderSession C) → Goes s (write_enable link image set s)
  unfolding write_enable
  enabled-Goes s =
      written link
        (λ n. build_enable_features n status_regs_toggle (enable_payload set.start_option)) s

  open_reply-Goes :
      (info : SessionInfo) (s : IderSession C)
      → Goes s (on_open_session_reply link image set info s)
  unfolding on_open_session_reply
  open_reply-Goes info s =
      let u : IderSession C = record s {
        info = info;
        opened = true;
        signals = session_opened info ∷ s.signals;
      } in
      let h = enabled-Goes u in
      if-Goes s (not (info.proto == 0)) _ _ (failed _ s) (
        if-Goes s (ltb max_read_cap info.read_buffer || ltb max_read_cap info.write_buffer) _ _
          (failed _ s) (record { inbox_eq = h.inbox_eq; sound = h.sound }))

  status-Goes :
      (type value : ℕ) (s : IderSession C) → Goes s (on_status_data link image set type value s)
  unfolding on_status_data
  status-Goes type value s =
      let enabled : Bool = not (bit_and value 0x02 == 0) in
      if-Goes s (type == status_regs_avail) _ _
        (if-Goes s (not (bit_and value 0x01 == 0)) _ _ (enabled-Goes s) (same s))
        (if-Goes s (type == status_regs_status) _ _
          (if-Goes s ((enabled && s.enabled) || (not enabled && not s.enabled)) _ _ (same s)
            (record { inbox_eq = refl; sound = λ k. k }))
          (same s))

-- What a round does: it keeps soundness, and takes a byte if it goes on.
pub record Rounds {C : Type 0} (s : IderSession C) (r : IderSession C × Bool) : Type 0 where
  pub sound : IsTimed s → IsTimed r.0
  pub shorter : r.1 ≡ true → length (r.0).inbox < length s.inbox

module _ {C : Type 0} where
  if-Rounds :
      (s : IderSession C) (b : Bool) (r u : IderSession C × Bool)
      → Rounds s r
      → Rounds s u
      → Rounds s (if b then r else u)
  if-Rounds s true r u h k = h
  if-Rounds s false r u h k = k

  stops : (s t : IderSession C) → (IsTimed s → IsTimed t) → Rounds s (t, false)
  stops s t h = record { sound = h; shorter = λ e. absurd (cc) }

  -- A frame of `consumed` bytes is taken off and handled.
  takes :
      (s t : IderSession C) (consumed : ℕ) (on : Bool)
      → 1 ≤ consumed
      → consumed ≤ length s.inbox
      → Goes (record s { inbox = drop consumed s.inbox }) t
      → Rounds s (t, on)
  takes s t consumed on h h' goes = record {
    sound = goes.sound;
    shorter = λ e.
        omega (arith, ap (λ (b : List ℕ). length b) goes.inbox_eq, length-drop consumed s.inbox);
  }

fixed_bounds :
    (buffer : List ℕ) (tag size consumed : ℕ)
    → try_parse_fixed buffer tag (suc size) ≡ some consumed
    → (consumed ≤ length buffer) × (1 ≤ consumed)
unfolding try_parse_fixed
fixed_bounds buffer tag size consumed e = ground arith

open_reply_bounds :
    (buffer : List ℕ) (info : SessionInfo) (consumed : ℕ)
    → try_parse_open_session_reply buffer ≡ some (info, consumed)
    → (consumed ≤ length buffer) × (1 ≤ consumed)
unfolding try_parse_open_session_reply
open_reply_bounds buffer info consumed e = ground arith

status_bounds :
    (buffer : List ℕ) (sd : StatusData) (consumed : ℕ)
    → try_parse_status_data buffer ≡ some (sd, consumed)
    → (consumed ≤ length buffer) × (1 ≤ consumed)
unfolding try_parse_status_data
status_bounds buffer sd consumed e = ground arith

command_bounds :
    (buffer : List ℕ) (cmd : ScsiCommand) (consumed : ℕ)
    → try_parse_command_written buffer ≡ some (cmd, consumed)
    → (consumed ≤ length buffer) × (1 ≤ consumed)
unfolding try_parse_command_written
command_bounds buffer cmd consumed e = ground arith

module _ {C : Type 0} (link : Link C) (image : Image) (set : Settings) where
  fixed-Rounds :
      (tag size : ℕ) (act : IderSession C → IderSession C) (on : Bool) (s : IderSession C)
      → ((t : IderSession C) → Goes t (act t))
      → Rounds s (fixed_round link image set tag (suc size) act on s)
  unfolding fixed_round
  fixed-Rounds tag size act on s goes =
      elim (Option-cases (try_parse_fixed s.inbox tag (suc size))) [
        | inl e ↦ rw (e, fixed_round) (stops s s (λ k. k))
        | inr (consumed, e) ↦
            let bounds = fixed_bounds s.inbox tag size consumed e in
            rw (e, fixed_round)
              (takes s _ consumed on bounds.1 bounds.0
                (goes (record s { inbox = drop consumed s.inbox })))
      ]

  open_reply-Rounds : (s : IderSession C) → Rounds s (open_reply_round link image set s)
  unfolding open_reply_round
  open_reply-Rounds s = elim (Option-cases (try_parse_open_session_reply s.inbox)) [
    | inl e ↦ rw (e, open_reply_round) (stops s s (λ k. k))
    | inr ((info, consumed), e) ↦
        let bounds = open_reply_bounds s.inbox info consumed e in
        rw (e, open_reply_round)
          (takes s _ consumed true bounds.1 bounds.0
            (open_reply-Goes link image set info (record s { inbox = drop consumed s.inbox })))
  ]

  status-Rounds : (s : IderSession C) → Rounds s (status_round link image set s)
  unfolding status_round
  status-Rounds s = elim (Option-cases (try_parse_status_data s.inbox)) [
    | inl e ↦ rw (e, status_round) (stops s s (λ k. k))
    | inr ((sd, consumed), e) ↦
        let bounds = status_bounds s.inbox sd consumed e in
        rw (e, status_round)
          (takes s _ consumed true bounds.1 bounds.0 (
            status-Goes link image set sd.type sd.value
              (record s { inbox = drop consumed s.inbox })))
  ]

  command-Rounds : (s : IderSession C) → Rounds s (command_round link image set s)
  unfolding command_round
  command-Rounds s = elim (Option-cases (try_parse_command_written s.inbox)) [
    | inl e ↦ rw (e, command_round) (stops s s (λ k. k))
    | inr ((cmd, consumed), e) ↦
        let bounds = command_bounds s.inbox cmd consumed e in
        rw (e, command_round)
          (takes s _ consumed true bounds.1 bounds.0
            (command-Goes link image cmd (record s { inbox = drop consumed s.inbox })))
  ]

  pub round-Rounds : (s : IderSession C) → Rounds s (round link image set s)
  unfolding round
  round-Rounds s =
      let tag : ℕ = peek_tag s.inbox in
      let unread : (t : IderSession C) → Goes t t = same in
      if-Rounds s (tag == cmd_open_session_reply) _ _ (open_reply-Rounds s) (
        if-Rounds s (tag == cmd_close) _ _
          (fixed-Rounds cmd_close 7 (fail closed_by_device) false s (failed closed_by_device))
          (if-Rounds s (tag == cmd_keep_alive_ping) _ _
            (fixed-Rounds cmd_keep_alive_ping 7 (write_next link build_keep_alive_pong) true s
              (written link build_keep_alive_pong))
            (if-Rounds s (tag == cmd_keep_alive_pong) _ _
              (fixed-Rounds cmd_keep_alive_pong 7 (λ t. t) true s unread)
              (if-Rounds s (tag == cmd_reset_occurred) _ _
                (fixed-Rounds cmd_reset_occurred 8 (write_next link build_reset_response) true s
                  (written link build_reset_response))
                (if-Rounds s (tag == cmd_status_data) _ _ (status-Rounds s) (
                  if-Rounds s (tag == cmd_error_occurred) _ _
                    (fixed-Rounds cmd_error_occurred 10 (λ t. t) true s unread)
                    (if-Rounds s (tag == cmd_heartbeat) _ _
                      (fixed-Rounds cmd_heartbeat 7 (λ t. t) true s unread)
                      (if-Rounds s (tag == cmd_command_written) _ _ (command-Rounds s) (
                        stops s (fail (unknown_command tag) s)
                          (failed (unknown_command tag) s).sound)))))))))

  -- Whatever the link and the file do, the loop of drainInbox comes to its end with any fuel
  -- above the length of the inbox.
  pub drain_rounds_end :
      (n : ℕ) (s : IderSession C)
      → length s.inbox < n
      → (rounds (reader link image set) n s).1 ≡ true
  drain_rounds_end n s h =
      rounds_end (reader link image set) (λ t some_bytes on. (round-Rounds t).shorter on) n s h
