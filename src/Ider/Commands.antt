-- ===== src/Ider/Commands.antt =====
-- ider/src/ider_session.cpp: the SCSI commands.
pub mod Branches
use mesh_commander.Ider.State.{
  device_floppy, device_cd_rom, sense_not_ready, sense_illegal_request, sense_unit_attention,
  max_read_cap, interleaved_reads, Image, IderSession, is_dma, fail, send_data, send_ok, send_error,
}
use mesh_commander.Ider.Answers.{
  cut_to, empty_mode, mode_page, configuration, toc_sessions, toc_msf, toc_lba, format_capacities,
}
use mesh_commander.Redir.Link.{Link}
use mesh_commander.Wire.{shl}
use mesh_commander.Ider.Codec.{ScsiCommand}
use mesh_commander.Ider.Scsi.{
  op_test_unit_ready, op_read6, op_write6, op_mode_sense6, op_start_stop, op_allow_medium_removal,
  op_read_format_capacities, op_read_capacity, op_read10, op_write10, op_write_and_verify,
  op_read_toc, op_get_configuration, op_get_event_status, op_mode_sense10, read_be16, read_be32,
  pack_be32,
}
use mesh_commander.Prelude.{
  ℕ, ◌+◌, ◌-◌, ◌*◌, ◌/◌, ◌%◌, ◌^◌, min, Bool, true, false, not, ◌&&◌, ◌||◌, List, [], ◌∷◌, ◌++◌,
  ltb, ◌==◌, if◌then◌else◌, length, get_or, bit_or, bit_and,
}

module _ {C : Type 0} (link : Link C) (image : Image) where
  unfoldable pub scsi_test_unit_ready : ℕ → IderSession C → IderSession C
  unfolding send_error send_ok
  scsi_test_unit_ready dev s =
      if not (dev == device_cd_rom) || not s.is_open
      then send_error link dev sense_not_ready 0x3A 0x00 s
      else if not s.cd_ready
      then send_error link dev sense_unit_attention 0x28 0x00 (record s { cd_ready = true })
      else send_ok link dev s

  unfoldable pub scsi_mode_sense6 : List ℕ → ℕ → ℕ → IderSession C → IderSession C
  unfolding send_error send_data
  scsi_mode_sense6 cdb dev feature s =
      if ltb (length cdb) 4
      then send_error link dev sense_illegal_request 0x20 0x00 s
      else if (get_or cdb 2 0 == 0x3F) && (get_or cdb 3 0 == 0x00)
      then if dev == device_cd_rom
        then if not s.is_open
          then send_error link dev sense_not_ready 0x3A 0x00 s
          else send_data link dev true (0x00 ∷ 0x05 ∷ 0x80 ∷ 0x00 ∷ []) (is_dma feature) s
        else send_error link dev sense_not_ready 0x3A 0x00 s
      else send_error link dev sense_illegal_request 0x24 0x00 s

  unfoldable pub scsi_mode_sense10 : List ℕ → ℕ → ℕ → IderSession C → IderSession C
  unfolding send_error send_data mode_page
  scsi_mode_sense10 cdb dev feature s =
      let buflen : ℕ = read_be16 cdb 7 in
      let page : List ℕ =
        if dev == device_cd_rom then mode_page (bit_and (get_or cdb 2 0) 0x3F) else [] in
      if ltb (length cdb) 8
      then send_error link dev sense_illegal_request 0x20 0x00 s
      else if buflen == 0
      then send_data link dev true empty_mode (is_dma feature) s
      else if length page == 0
      then send_error link dev sense_illegal_request 0x20 0x00 s
      else send_data link dev true (cut_to buflen page) (is_dma feature) s

  unfoldable pub scsi_allow_medium_removal : ℕ → IderSession C → IderSession C
  unfolding send_error send_ok
  scsi_allow_medium_removal dev s =
      if (dev == device_cd_rom) && not s.is_open
      then send_error link dev sense_not_ready 0x3A 0x00 s
      else send_ok link dev s

  unfoldable pub scsi_start_stop : ℕ → IderSession C → IderSession C
  unfolding send_ok
  scsi_start_stop dev s = send_ok link dev s

  unfoldable pub scsi_read_capacity : ℕ → ℕ → IderSession C → IderSession C
  unfolding send_error send_data
  scsi_read_capacity dev feature s =
      let last_lba : ℕ = (s.iso_size / 2 ^ 11 - 1) % 2 ^ 32 in
      if not (dev == device_cd_rom) || (not s.is_open || ltb s.iso_size 2048)
      then send_error link dev sense_not_ready 0x3A 0x00 s
      else send_data link dev true (pack_be32 last_lba ++ (0x00 ∷ 0x00 ∷ 0x08 ∷ 0x00 ∷ []))
          (is_dma feature) s

  -- scsiRead behind the decoding of the block address and the length.
  unfoldable pub start_read : ℕ → ℕ → ℕ → ℕ → IderSession C → IderSession C
  unfolding send_error send_ok fail
  start_read dev feature lba len s =
      let size : ℕ = s.info.read_buffer in
      if ltb (s.iso_size / 2 ^ 11) (lba + len)
      then send_error link dev sense_illegal_request 0x21 0x00 s
      else if len == 0
      then send_ok link dev s
      else if s.in_flight
      then fail interleaved_reads s
      else if not (image.seek (lba * 2 ^ 11))
      then send_error link dev sense_illegal_request 0x21 0x00 s
      else record s {
        position = lba * 2 ^ 11;
        remaining = len * 2 ^ 11;
        chunk_dev = dev;
        chunk_feature = feature;
        chunk_size = if ltb 0 size then size else max_read_cap;
        in_flight = true;
        armed = s.armed + 1;
      }

  unfoldable pub scsi_read : List ℕ → ℕ → ℕ → Bool → IderSession C → IderSession C
  unfolding start_read send_error
  scsi_read cdb dev feature is_read10 s =
      let b1 : ℕ = shl (bit_and (get_or cdb 1 0) 0x1F) 16 in
      let b2 : ℕ = shl (get_or cdb 2 0) 8 in
      let b4 : ℕ = get_or cdb 4 0 in
      if not (dev == device_cd_rom) || not s.is_open
      then send_error link dev sense_not_ready 0x3A 0x00 s
      else if is_read10
      then if ltb (length cdb) 9
        then send_error link dev sense_illegal_request 0x20 0x00 s
        else start_read dev feature (read_be32 cdb 2) (read_be16 cdb 7) s
      else if ltb (length cdb) 5
      then send_error link dev sense_illegal_request 0x20 0x00 s
      else start_read dev feature (bit_or (bit_or b1 b2) (get_or cdb 3 0))
          (if b4 == 0 then 256 else b4) s

  -- The timer fires.
  unfoldable pub send_next_scsi_chunk : IderSession C → IderSession C
  unfolding send_data send_error
  send_next_scsi_chunk s =
      let want : ℕ = min s.remaining s.chunk_size in
      let bytes : List ℕ = image.read_at s.position want in
      let left : ℕ = s.remaining - want in
      let read : IderSession C = record s { position = s.position + length bytes } in
      let refused : IderSession C =
        send_error link s.chunk_dev sense_illegal_request 0x21 0x00 read in
      let sent : IderSession C =
        send_data link s.chunk_dev (left == 0) bytes (is_dma s.chunk_feature)
          (record read { remaining = left }) in
      if not s.is_open || (s.remaining == 0)
      then record s { in_flight = false }
      else if not (length bytes == want)
      then record refused { remaining = 0; in_flight = false }
      else if ltb 0 left
      then record sent { armed = sent.armed + 1 }
      else record sent { in_flight = false }

  unfoldable pub scsi_read_toc : List ℕ → ℕ → ℕ → IderSession C → IderSession C
  unfolding send_error send_data
  scsi_read_toc cdb dev feature s =
      let msf : Bool = ltb 1 (length cdb) && not (bit_and (get_or cdb 1 0) 0x02 == 0) in
      let format0 : ℕ = if ltb 2 (length cdb) then bit_and (get_or cdb 2 0) 0x07 else 0 in
      let format : ℕ =
        if (format0 == 0) && ltb 9 (length cdb) then get_or cdb 9 0 / 2 ^ 6 else format0 in
      if not (dev == device_cd_rom)
      then send_error link dev sense_illegal_request 0x20 0x00 s
      else if format == 1
      then send_data link dev true toc_sessions (is_dma feature) s
      else if format == 0
      then if msf
        then send_data link dev true toc_msf (is_dma feature) s
        else send_data link dev true toc_lba (is_dma feature) s
      else send_error link dev sense_illegal_request 0x20 0x00 s

  unfoldable pub scsi_get_configuration : List ℕ → ℕ → ℕ → IderSession C → IderSession C
  unfolding send_error send_data configuration
  scsi_get_configuration cdb dev feature s =
      let send_all : Bool = not (get_or cdb 1 0 == 2) in
      let buflen : ℕ = read_be16 cdb 7 in
      let body : List ℕ = configuration send_all (read_be16 cdb 2) in
      let r : List ℕ = pack_be32 (length body) ++ body in
      if ltb (length cdb) 9
      then send_error link dev sense_illegal_request 0x20 0x00 s
      else if buflen == 0
      then send_data link dev true empty_mode (is_dma feature) s
      else send_data link dev true (cut_to buflen r) (is_dma feature) s

  unfoldable pub scsi_get_event_status : List ℕ → ℕ → ℕ → IderSession C → IderSession C
  unfolding send_error send_data
  scsi_get_event_status cdb dev feature s =
      let present : ℕ = if (dev == device_cd_rom) && s.is_open then 0x02 else 0x00 in
      let other : Bool = not (get_or cdb 1 0 == 0x01) && not (get_or cdb 4 0 == 0x10) in
      if ltb (length cdb) 10 || other
      then send_error link dev sense_illegal_request 0x26 0x01 s
      else send_data link dev true (0x00 ∷ present ∷ 0x80 ∷ 0x00 ∷ []) (is_dma feature) s

  unfoldable pub scsi_read_format_capacities : ℕ → ℕ → IderSession C → IderSession C
  unfolding send_error send_data
  scsi_read_format_capacities dev feature s =
      if not (dev == device_cd_rom) || (not s.is_open || s.iso_size == 0)
      then send_error link dev sense_illegal_request 0x24 0x00 s
      else send_data link dev true format_capacities (is_dma feature) s

  -- Bit 0x10 of the flags means the CD-ROM. An opcode that is not served is an illegal request.
  unfoldable pub handle_scsi : ScsiCommand → IderSession C → IderSession C
  unfolding scsi_test_unit_ready scsi_mode_sense6 scsi_mode_sense10 scsi_allow_medium_removal
      scsi_start_stop scsi_read_capacity scsi_read scsi_read_toc scsi_get_configuration
      scsi_get_event_status scsi_read_format_capacities send_error
  handle_scsi cmd s =
      let cdb : List ℕ = cmd.cdb in
      let opcode : ℕ = get_or cdb 0 0 in
      let dev : ℕ =
        if not (bit_and cmd.device_flags 0x10 == 0) then device_cd_rom else device_floppy in
      let fr : ℕ = cmd.feature_register in
      if length cdb == 0
      then s
      else if opcode == op_test_unit_ready
      then scsi_test_unit_ready dev s
      else if opcode == op_mode_sense6
      then scsi_mode_sense6 cdb dev fr s
      else if opcode == op_mode_sense10
      then scsi_mode_sense10 cdb dev fr s
      else if opcode == op_allow_medium_removal
      then scsi_allow_medium_removal dev s
      else if opcode == op_start_stop
      then scsi_start_stop dev s
      else if opcode == op_read_capacity
      then scsi_read_capacity dev fr s
      else if opcode == op_read6
      then scsi_read cdb dev fr false s
      else if opcode == op_read10
      then scsi_read cdb dev fr true s
      else if opcode == op_read_toc
      then scsi_read_toc cdb dev fr s
      else if opcode == op_get_configuration
      then scsi_get_configuration cdb dev fr s
      else if opcode == op_get_event_status
      then scsi_get_event_status cdb dev fr s
      else if opcode == op_read_format_capacities
      then scsi_read_format_capacities dev fr s
      else if (opcode == op_write6) || (opcode == op_write10 || opcode == op_write_and_verify)
      then send_error link dev sense_not_ready 0x3A 0x00 s
      else send_error link dev sense_illegal_request 0x20 0x00 s
