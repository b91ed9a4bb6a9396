-- ===== src/Ider/State.antt =====
-- ider/src/ider_session.cpp and ider/include/ider/ider_session.h: the state of the session for IDE
-- redirection, failure and the senders. The image file is a parameter; `armed` counts the single-shot
-- timers that are pending, and `signals` are the signals emitted, the latest first.
use mesh_commander.Redir.Link.{Link, is_taken}
use mesh_commander.Ider.Codec.{SessionInfo, build_command_end_response, build_send_data_to_host}
use mesh_commander.Prelude.{
  ℕ, ◌+◌, ◌%◌, ◌^◌, ◌≤◌, ◌≡◌, Bool, false, not, ◌||◌, List, ◌∷◌, ◌++◌, ◌==◌, if◌then◌else◌, length,
  bit_and,
}

abbrev pub cmd_close : ℕ
cmd_close = 0x43

abbrev pub cmd_keep_alive_ping : ℕ
cmd_keep_alive_ping = 0x44

abbrev pub cmd_reset_occurred : ℕ
cmd_reset_occurred = 0x46

abbrev pub cmd_error_occurred : ℕ
cmd_error_occurred = 0x4A

abbrev pub device_floppy : ℕ
device_floppy = 0xA0

abbrev pub device_cd_rom : ℕ
device_cd_rom = 0xB0

abbrev pub status_regs_avail : ℕ
status_regs_avail = 1

abbrev pub status_regs_status : ℕ
status_regs_status = 2

abbrev pub status_regs_toggle : ℕ
status_regs_toggle = 3

abbrev pub sense_no_sense : ℕ
sense_no_sense = 0x00

abbrev pub sense_not_ready : ℕ
sense_not_ready = 0x02

abbrev pub sense_illegal_request : ℕ
sense_illegal_request = 0x05

abbrev pub sense_unit_attention : ℕ
sense_unit_attention = 0x06

abbrev pub max_read_cap : ℕ
max_read_cap = 8192

-- The reasons that fail() is given.
pub data Reason : Type 0 where
  not_authenticated cannot_open illegal_buffers closed_by_device interleaved_reads write_failed
        client_error :
      Reason
  unsupported_proto unknown_command : ℕ → Reason

pub data Signal : Type 0 where
  session_opened : SessionInfo → Signal
  enabled_changed : Bool → Signal
  stats_changed : ℕ → ℕ → Signal
  closed : Reason → Signal

pub data Event : Type 0 where
  started client_failed timer : Event
  raw_bytes : List ℕ → Event

-- QFile: `read_at p n` is read(n) at the position p, at most n bytes; two reads in a row are one.
pub record Image : Type 0 where
  pub seek : ℕ → Bool
  pub read_at : ℕ → ℕ → List ℕ
  pub length-read_at : (p n : ℕ) → length (read_at p n) ≤ n
  pub read_at_add : (p n m : ℕ) → read_at p (n + m) ≡ read_at p n ++ read_at (p + n) m

-- m_startOption, whether m_isoPath is set, whether the file can be opened, and its size.
pub record Settings : Type 0 where
  pub start_option : ℕ
  pub has_path : Bool
  pub can_open : Bool
  pub file_size : ℕ

pub record IderSession (C : Type 0) : Type 0 where
  pub client : C
  pub is_open : Bool
  pub iso_size : ℕ
  pub position : ℕ
  pub info : SessionInfo
  pub inbox : List ℕ
  pub out_sequence : ℕ
  pub bytes_sent : ℕ
  pub bytes_received : ℕ
  pub opened : Bool
  pub enabled : Bool
  pub cd_ready : Bool
  pub remaining : ℕ
  pub chunk_dev : ℕ
  pub chunk_feature : ℕ
  pub chunk_size : ℕ
  pub in_flight : Bool
  pub armed : ℕ
  pub signals : List Signal

-- `(feature & 0x01) != 0`.
abbrev pub is_dma : ℕ → Bool
is_dma feature = not (bit_and feature 0x01 == 0)

module _ {C : Type 0} where
  unfoldable pub fail : Reason → IderSession C → IderSession C
  fail reason s =
      let shut : IderSession C = record s { is_open = false } in
      let off : IderSession C = record shut {
        opened = false;
        enabled = false;
        signals = enabled_changed false ∷ s.signals;
      } in
      let t : IderSession C = if s.opened || s.enabled then off else shut in
      record t { signals = closed reason ∷ t.signals }

module _ {C : Type 0} (link : Link C) where
  unfoldable pub write_frame : List ℕ → IderSession C → IderSession C
  unfolding fail
  write_frame frame s =
      let w = link.write_bytes frame s.client in
      let t : IderSession C = record s { client = w.0 } in
      let sent : ℕ = (s.bytes_sent + length frame) % 2 ^ 64 in
      if is_taken w.1
      then record t { bytes_sent = sent; signals = stats_changed sent s.bytes_received ∷ s.signals }
      else fail write_failed t

  -- A frame that is built with `m_outSequence++`.
  unfoldable pub write_next : (ℕ → List ℕ) → IderSession C → IderSession C
  unfolding write_frame
  write_next build s =
      write_frame (build s.out_sequence) (record s { out_sequence = (s.out_sequence + 1) % 2 ^ 32 })

  unfoldable pub send_data : ℕ → Bool → List ℕ → Bool → IderSession C → IderSession C
  unfolding write_next
  send_data dev completed payload dma s =
      write_next (λ n. build_send_data_to_host n dev completed payload dma) s

  unfoldable pub send_ok : ℕ → IderSession C → IderSession C
  unfolding write_next
  send_ok dev s =
      write_next (λ n. build_command_end_response n false sense_no_sense dev 0x00 0x00) s

  unfoldable pub send_error : ℕ → ℕ → ℕ → ℕ → IderSession C → IderSession C
  unfolding write_next
  send_error dev sense asc asq s =
      write_next (λ n. build_command_end_response n false sense dev asc asq) s
