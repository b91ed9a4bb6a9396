-- ===== src/Redir/SolSession.antt =====
-- redir/src/sol_session.cpp: serial over LAN behind an authenticated client. `signals` are the signals
-- emitted, the latest first; `keepalive` says whether the timer runs.
pub mod Reading
pub mod Frames
pub mod Sending
pub mod Closed
pub mod Tests
use mesh_commander.Inbox.{Reader, drain}
use mesh_commander.Redir.Link.{Link}
use mesh_commander.Redir.Client.{Written, whole, part, error}
use mesh_commander.Redir.Serial.{
  SolOpenParams, build_sol_open, try_parse_sol_open_reply, build_sol_settings,
  build_sol_data_to_host, try_parse_sol_display_data, build_sol_keepalive,
}
use mesh_commander.Prelude.{
  ℕ, zero, suc, ◌+◌, ◌%◌, ◌^◌, not, List, [], ◌∷◌, ◌++◌, none, some, ltb, ◌==◌, Bool, true, false,
  if◌then◌else◌, length, get_or, drop, take,
}

-- The reasons that fail() is given.
pub data Reason : Type 0 where
  not_authenticated open_not_written client_error : Reason
  refused unexpected_frame : ℕ → Reason

pub data Signal : Type 0 where
  session_opened : Signal
  data_shown : List ℕ → Signal
  closed : Reason → Signal

pub record SolSession (C : Type 0) : Type 0 where
  pub client : C
  pub inbox : List ℕ
  pub sequence : ℕ
  pub is_open : Bool
  pub settings_sent : Bool
  pub keepalive : Bool
  pub signals : List Signal

pub data Event : Type 0 where
  started client_failed keepalive_due : Event
  input raw_bytes : List ℕ → Event

-- `SolOpenParams{}`.
abbrev pub default_params : SolOpenParams
default_params = record {
  max_tx_buffer = 10000;
  tx_timeout_ms = 100;
  tx_overflow_timeout_ms = 0;
  rx_timeout_ms = 10000;
  rx_flush_timeout_ms = 100;
  heartbeat_ms = 0;
}

abbrev pub max_chunk : ℕ
max_chunk = 0xFFFF

-- `writeRaw(open) == open.size()`.
unfoldable pub is_whole : Written → Bool
is_whole whole = true
is_whole part = false
is_whole error = false

module _ {C : Type 0} (link : Link C) where
  unfoldable pub new_session : C → SolSession C
  new_session c = record {
    client = c;
    inbox = [];
    sequence = 1;
    is_open = false;
    settings_sent = false;
    keepalive = false;
    signals = [];
  }

  unfoldable pub fail : Reason → SolSession C → SolSession C
  fail reason s = record s {
    is_open = false;
    keepalive = false;
    signals = closed reason ∷ s.signals;
  }

  -- writeRaw, with its result left alone.
  unfoldable pub write : List ℕ → SolSession C → SolSession C
  write frame s = record s { client = (link.write_bytes frame s.client).0 }

  -- `m_sequence++`.
  unfoldable pub next_sequence : SolSession C → SolSession C
  next_sequence s = record s { sequence = (s.sequence + 1) % 2 ^ 32 }

  unfoldable pub start : SolSession C → SolSession C
  unfolding fail write next_sequence is_whole
  start s =
      let frame : List ℕ = build_sol_open s.sequence default_params in
      let t : SolSession C = write frame (next_sequence s) in
      if not (link.is_authenticated s.client)
      then fail not_authenticated s
      else if not (is_whole (link.write_bytes frame s.client).1)
      then fail open_not_written t
      else t

  -- The loop of sendInput, on fuel.
  unfoldable pub send_chunks : ℕ → List ℕ → SolSession C → SolSession C
  unfolding write
  send_chunks zero bytes s = s
  send_chunks (suc n) [] s = s
  send_chunks (suc n) (b ∷ bytes) s =
      send_chunks n (drop max_chunk (b ∷ bytes))
        (write (build_sol_data_to_host (take max_chunk (b ∷ bytes))) s)

  unfoldable pub send_input : List ℕ → SolSession C → SolSession C
  unfolding send_chunks
  send_input bytes s = if not s.is_open then s else send_chunks (length bytes) bytes s

  unfoldable pub on_client_failed : SolSession C → SolSession C
  unfolding fail
  on_client_failed s = fail client_error s

  -- A reply to the open request.
  unfoldable pub on_open_reply : ℕ → SolSession C → SolSession C × Bool
  unfolding fail write next_sequence
  on_open_reply status s =
      let t : SolSession C = write (build_sol_settings s.sequence) (next_sequence s) in
      if not (status == 0)
      then (fail (refused status) s, false)
      else if s.settings_sent
      then (s, true)
      else (
        record t {
          settings_sent = true;
          is_open = true;
          keepalive = true;
          signals = session_opened ∷ t.signals;
        },
        true,
      )

  unfoldable pub on_display_data : List ℕ → SolSession C → SolSession C × Bool
  on_display_data payload s = (
    if length payload == 0 then s else record s { signals = data_shown payload ∷ s.signals },
    true,
  )

  -- A frame of `n` bytes that is passed over.
  unfoldable pub skip : ℕ → SolSession C → SolSession C × Bool
  skip n s =
      if ltb (length s.inbox) n then (s, false) else (record s { inbox = drop n s.inbox }, true)

  unfoldable pub open_round : SolSession C → SolSession C × Bool
  unfolding on_open_reply
  open_round s = elim (try_parse_sol_open_reply s.inbox) [
    | none ↦ (s, false)
    | some (status, consumed) ↦ on_open_reply status (record s { inbox = drop consumed s.inbox })
  ]

  unfoldable pub data_round : SolSession C → SolSession C × Bool
  unfolding on_display_data
  data_round s = elim (try_parse_sol_display_data s.inbox) [
    | none ↦ (s, false)
    | some (payload, consumed) ↦
        on_display_data payload (record s { inbox = drop consumed s.inbox })
  ]

  -- One round of the loop of drainInbox. True means that it goes on.
  unfoldable pub round : SolSession C → SolSession C × Bool
  unfolding open_round data_round skip fail
  round s =
      let tag : ℕ = get_or s.inbox 0 0 in
      if tag == 0x21
      then open_round s
      else if tag == 0x2A
      then data_round s
      else if tag == 0x2B
      then skip 8 s
      else if tag == 0x29
      then skip 10 s
      else (fail (unexpected_frame tag) s, false)

  unfoldable pub append : List ℕ → SolSession C → SolSession C
  append chunk s = record s { inbox = s.inbox ++ chunk }

  abbrev pub reader : Reader (SolSession C)
  reader = record { inbox = λ s. s.inbox; append = append; round = round }

  unfoldable pub drain_inbox : SolSession C → SolSession C
  drain_inbox s = drain reader s

  unfoldable pub on_raw_bytes : List ℕ → SolSession C → SolSession C
  unfolding drain_inbox append
  on_raw_bytes chunk s = drain_inbox (append chunk s)

  unfoldable pub send_keepalive : SolSession C → SolSession C
  unfolding write
  send_keepalive s = write build_sol_keepalive s

  -- What is called from outside, in any order. The timer fires while it runs.
  unfoldable pub on_event : Event → SolSession C → SolSession C
  unfolding start on_client_failed send_keepalive send_input on_raw_bytes
  on_event started s = start s
  on_event client_failed s = on_client_failed s
  on_event keepalive_due s = if s.keepalive then send_keepalive s else s
  on_event (input bytes) s = send_input bytes s
  on_event (raw_bytes chunk) s = on_raw_bytes chunk s

  unfoldable pub on_events : List Event → SolSession C → SolSession C
  unfolding on_event
  on_events [] s = s
  on_events (e ∷ events) s = on_events events (on_event e s)
