-- ===== src/Redir/SolSession/Frames.antt =====
-- redir/src/sol_session.cpp: the session as one that receives frames and not bytes.
use mesh_commander.Inbox.{joined, feed_all, drain_next, drain_empty, feed_all-joined, feed, drain}
use mesh_commander.Redir.Link.{Link}
use mesh_commander.Redir.SolSession.{
  SolSession, Signal, session_opened, data_shown, closed, round, open_round, data_round, skip,
  append, reader, on_open_reply, on_display_data, raw_bytes, on_event, on_events, on_raw_bytes,
  drain_inbox, write, next_sequence,
}
use mesh_commander.Redir.SolSession.Reading.{
  closings, failures, opened, reader-IsReader, open_reply_bounds, display_data_bounds,
}
use mesh_commander.Redir.Codec.Stream.{sol_open_reply-IsStreaming, sol_display_data-IsStreaming}
use mesh_commander.Redir.Serial.{try_parse_sol_open_reply, try_parse_sol_display_data}
use mesh_commander.Prelude.{
  ℕ, suc, ◌≤◌, ◌≡◌, refl, sym, ap, ◌∙◌, inl, inr, Bool, true, false, List, [], ◌∷◌, ◌++◌, some, map,
  ltb, ◌==◌, if◌then◌else◌, length, get_or, Bool-cases, arith, drop-append, length-append,
}

-- A reply that the session is open, text for the terminal, and the two frames passed over.
pub data Frame : Type 0 where
  open_reply kept_alive settings_echo : Frame
  shown : List ℕ → Frame

-- The bytes of a frame, whole.
abbrev pub Encodes : Frame → List ℕ → Type 0
Encodes open_reply bytes =
    (get_or bytes 0 0 ≡ 0x21) × (try_parse_sol_open_reply bytes ≡ some (0, length bytes))
Encodes kept_alive bytes = (get_or bytes 0 0 ≡ 0x2B) × (length bytes ≡ 8)
Encodes settings_echo bytes = (get_or bytes 0 0 ≡ 0x29) × (length bytes ≡ 10)
Encodes (shown text) bytes =
    (get_or bytes 0 0 ≡ 0x2A) × (try_parse_sol_display_data bytes ≡ some (text, length bytes))

abbrev pub AllEncode : List Frame → List (List ℕ) → Type 0
AllEncode [] [] = Unit {0}
AllEncode [] (bytes ∷ rest) = ⊥
AllEncode (frame ∷ frames) [] = ⊥
AllEncode (frame ∷ frames) (bytes ∷ rest) = Encodes frame bytes × AllEncode frames rest

-- What the session promises its user: whether it is open, and the texts shown, the latest first.
pub record Console : Type 0 where
  pub is_up : Bool
  pub texts : List (List ℕ)

abbrev pub receive : Frame → Console → Console
receive open_reply c = record c { is_up = true }
receive kept_alive c = c
receive settings_echo c = c
receive (shown text) c = if length text == 0 then c else record c { texts = text ∷ c.texts }

abbrev pub receive_all : List Frame → Console → Console
receive_all [] c = c
receive_all (frame ∷ frames) c = receive_all frames (receive frame c)

unfoldable pub shown_texts : List Signal → List (List ℕ)
shown_texts [] = []
shown_texts (session_opened ∷ signals) = shown_texts signals
shown_texts (data_shown text ∷ signals) = text ∷ shown_texts signals
shown_texts (closed reason ∷ signals) = shown_texts signals

module _ {C : Type 0} (link : Link C) where
  abbrev pub view : SolSession C → Console
  view s = record { is_up = s.settings_sent; texts = shown_texts s.signals }

  -- What a frame does to the session, its inbox aside.
  abbrev after : Frame → SolSession C → SolSession C
  after open_reply s = if s.settings_sent then s else opened link s
  after kept_alive s = s
  after settings_echo s = s
  after (shown text) s =
      if length text == 0 then s else record s { signals = data_shown text ∷ s.signals }

  abbrev after_all : List Frame → SolSession C → SolSession C
  after_all [] s = s
  after_all (frame ∷ frames) s = after_all frames (after frame s)

  some_bytes : (frame : Frame) (bytes : List ℕ) → Encodes frame bytes → 1 ≤ length bytes
  some_bytes open_reply bytes h = (open_reply_bounds bytes 0 (length bytes) h.1).1
  some_bytes kept_alive bytes h = omega (arith, h.1)
  some_bytes settings_echo bytes h = omega (arith, h.1)
  some_bytes (shown text) bytes h = (display_data_bounds bytes text (length bytes) h.1).1

  skip_frame :
      (n : ℕ) (bytes rest : List ℕ) (s : SolSession C)
      → length bytes ≡ n
      → skip link n (record s { inbox = bytes ++ rest }) ≡ (record s { inbox = rest }, true)
  unfolding skip
  skip_frame n bytes rest s h =
      let enough : ltb (length (bytes ++ rest)) n ≡ false =
        rw (length-append bytes rest) (ground arith) in
      rw (enough, drop-append bytes rest n (sym h), skip) refl

  tag-append :
      (bytes rest : List ℕ) (tag : ℕ)
      → get_or bytes 0 0 ≡ suc tag
      → get_or (bytes ++ rest) 0 0 ≡ suc tag
  tag-append [] rest tag h = absurd (omega arith)
  tag-append (b ∷ bytes) rest tag h = h

  -- A round on a whole frame.
  round_frame :
      (frame : Frame) (bytes rest : List ℕ) (s : SolSession C)
      → Encodes frame bytes
      → round link (record s { inbox = bytes ++ rest })
        ≡ (record (after frame s) { inbox = rest }, true)
  unfolding round open_round data_round on_open_reply on_display_data write next_sequence
  round_frame open_reply bytes rest s h =
      let e = (sol_open_reply-IsStreaming bytes rest 0 (length bytes) h.1).1 in
      let left = drop-append bytes rest (length bytes) refl in
      elim (Bool-cases s.settings_sent) [
        | inl sent ↦ rw (tag-append bytes rest 0x20 h.0, e, left, sent, round, open_round) refl
        | inr new ↦ rw (tag-append bytes rest 0x20 h.0, e, left, new, round, open_round) refl
      ]
  round_frame kept_alive bytes rest s h =
      rw (tag-append bytes rest 0x2A h.0, round) (skip_frame 8 bytes rest s h.1)
  round_frame settings_echo bytes rest s h =
      rw (tag-append bytes rest 0x28 h.0, round) (skip_frame 10 bytes rest s h.1)
  round_frame (shown text) bytes rest s h =
      let e = (sol_display_data-IsStreaming bytes rest text (length bytes) h.1).1 in
      let left = drop-append bytes rest (length bytes) refl in
      elim (Bool-cases (length text == 0)) [
        | inl none_shown ↦
            rw (tag-append bytes rest 0x29 h.0, e, left, none_shown, round, data_round) refl
        | inr some_shown ↦
            rw (tag-append bytes rest 0x29 h.0, e, left, some_shown, round, data_round) refl
      ]

  drain_frames :
      (frames : List Frame) (pieces : List (List ℕ)) (s : SolSession C)
      → AllEncode frames pieces
      → drain (reader link) (record s { inbox = joined pieces })
        ≡ record (after_all frames s) { inbox = [] }
  unfolding joined
  drain_frames [] [] s h =
      drain_empty (reader link) (failures link) (reader-IsReader link) (record s { inbox = [] })
        refl
  drain_frames [] (bytes ∷ pieces) s h = absurd h
  drain_frames (frame ∷ frames) [] s h = absurd h
  drain_frames (frame ∷ frames) (bytes ∷ pieces) s h =
      let rest : List ℕ = joined pieces in
      let t : SolSession C = after frame s in
      let count = length-append bytes rest in
      let more = some_bytes frame bytes h.0 in
      drain_next (reader link) (failures link) (reader-IsReader link)
        (record s { inbox = bytes ++ rest }) (record t { inbox = rest }) (rw (count) (ground arith))
        (round_frame frame bytes rest s h.0) (rw (count) (omega arith))
      ∙ drain_frames frames pieces t h.1

  -- What the frames leave behind, but for the bytes.
  pub record Matches (c : Console) (before s : SolSession C) : Type 0 where
    pub same_view : view s ≡ c
    pub same_failures : failures link s ≡ failures link before
    pub up_iff : s.is_open ≡ s.settings_sent
    pub beats : s.keepalive ≡ s.settings_sent

  after-Matches :
      (frame : Frame) (s : SolSession C)
      → s.is_open ≡ s.settings_sent
      → s.keepalive ≡ s.settings_sent
      → Matches (receive frame (view s)) s (after frame s)
  unfolding closings shown_texts write next_sequence
  after-Matches open_reply s up beat = elim (Bool-cases s.settings_sent) [
    | inl e ↦
        rw (e)
          (record { same_view = refl; same_failures = refl; up_iff = up ∙ e; beats = beat ∙ e })
    | inr e ↦
        rw (e) (record { same_view = refl; same_failures = refl; up_iff = refl; beats = refl })
  ]
  after-Matches kept_alive s up beat = record {
    same_view = refl;
    same_failures = refl;
    up_iff = up;
    beats = beat;
  }
  after-Matches settings_echo s up beat = record {
    same_view = refl;
    same_failures = refl;
    up_iff = up;
    beats = beat;
  }
  after-Matches (shown text) s up beat = elim (Bool-cases (length text == 0)) [
    | inl e ↦ rw (e) (record { same_view = refl; same_failures = refl; up_iff = up; beats = beat })
    | inr e ↦ rw (e) (record { same_view = refl; same_failures = refl; up_iff = up; beats = beat })
  ]

  after_all-Matches :
      (frames : List Frame) (s : SolSession C)
      → s.is_open ≡ s.settings_sent
      → s.keepalive ≡ s.settings_sent
      → Matches (receive_all frames (view s)) s (after_all frames s)
  after_all-Matches [] s up beat = record {
    same_view = refl;
    same_failures = refl;
    up_iff = up;
    beats = beat;
  }
  after_all-Matches (frame ∷ frames) s up beat =
      let t : SolSession C = after frame s in
      let first = after-Matches frame s up beat in
      let rest = after_all-Matches frames t first.up_iff first.beats in
      record {
        same_view = rest.same_view ∙ ap (receive_all frames) first.same_view;
        same_failures = rest.same_failures ∙ first.same_failures;
        up_iff = rest.up_iff;
        beats = rest.beats;
      }

  on_events-feed_all :
      (chunks : List (List ℕ)) (s : SolSession C)
      → on_events link (map raw_bytes chunks) s ≡ feed_all (reader link) chunks s
  unfolding on_events on_event on_raw_bytes drain_inbox feed_all feed
  on_events-feed_all [] s = refl
  on_events-feed_all (chunk ∷ chunks) s = on_events-feed_all chunks (feed (reader link) chunk s)

  -- A serial session that is open exactly when it has sent its settings, keeps the keepalive
  -- timer running just then, and has an empty inbox, receives the bytes of accepting open
  -- replies, texts, keepalives and settings echoes, cut into chunks in any way: it is up and
  -- has shown the texts, empty ones left out, as the session of frames prescribes, has read
  -- everything, has signalled no further closing, and is open and keeps its timer running
  -- exactly when it has sent its settings.
  pub on_events-frames :
      (frames : List Frame) (pieces chunks : List (List ℕ)) (s : SolSession C)
      → AllEncode frames pieces
      → joined chunks ≡ joined pieces
      → s.is_open ≡ s.settings_sent
      → s.keepalive ≡ s.settings_sent
      → let r = on_events link (map raw_bytes chunks) (record s { inbox = [] }) in
        (r.inbox ≡ []) × Matches (receive_all frames (view s)) s r
  unfolding feed append
  on_events-frames frames pieces chunks s encode cut up beat =
      let s0 : SolSession C = record s { inbox = [] } in
      let done : SolSession C = record (after_all frames s) { inbox = [] } in
      let fed : feed (reader link) (joined chunks) s0 ≡ done =
        ap (λ (bytes : List ℕ). drain (reader link) (record s { inbox = bytes })) cut
        ∙ drain_frames frames pieces s encode in
      let end = after_all-Matches frames s up beat in
      let all =
        feed_all-joined (reader link) (failures link) (reader-IsReader link) chunks s0 (inl refl)
          (ap (failures link) fed ∙ end.same_failures) in
      rw (on_events-feed_all chunks s0 ∙ all ∙ fed) (
        refl,
        record {
          same_view = end.same_view;
          same_failures = end.same_failures;
          up_iff = end.up_iff;
          beats = end.beats;
        },
      )
