-- ===== src/Ider/Commands/Branches.antt =====
-- ider/src/ider_session.cpp: what holds of a SCSI command on every branch.
use mesh_commander.Redir.Link.{Link}
use mesh_commander.Ider.Codec.{
  ScsiCommand, build_send_data_to_host, build_command_end_response, peek_tag, pack_header,
  cmd_send_data_to_host, cmd_command_end_response,
}
use mesh_commander.Ider.State.{
  device_floppy, max_read_cap, device_cd_rom, sense_no_sense, sense_unit_attention, IderSession,
  Image, fail, write_next, send_data, send_ok, send_error, interleaved_reads,
}
use mesh_commander.Ider.Commands.{
  bit_or, bit_and, scsi_test_unit_ready, scsi_mode_sense6, scsi_mode_sense10,
  scsi_allow_medium_removal, scsi_start_stop, scsi_read_capacity, start_read, scsi_read,
  scsi_read_toc, scsi_get_configuration, scsi_get_event_status, scsi_read_format_capacities,
  handle_scsi,
}
use mesh_commander.Ider.Scsi.{
  read_be16, read_be32, op_test_unit_ready, op_mode_sense6, op_mode_sense10,
  op_allow_medium_removal, op_start_stop, op_read_capacity, op_read6, op_read10, op_read_toc,
  op_get_configuration, op_get_event_status, op_read_format_capacities, op_write6, op_write10,
  op_write_and_verify,
}
use mesh_commander.Ider.Answers.{mode_page}
use mesh_commander.Wire.{shl}
use mesh_commander.Prelude.{
  ℕ, ◌+◌, ◌*◌, ◌/◌, ◌^◌, ◌≡◌, refl, ◌⊎◌, inl, inr, Bool, true, false, not, ◌&&◌, ◌||◌, List, [],
  ltb, ◌==◌, if◌then◌else◌, length, get_or,
}

-- A frame that answers a command: data, or its end.
abbrev pub IsAnswer : List ℕ → Type 0
IsAnswer frame =
    (peek_tag frame ≡ cmd_send_data_to_host) ⊎ (peek_tag frame ≡ cmd_command_end_response)

send_data-IsAnswer :
    (n dev : ℕ) (completed : Bool) (payload : List ℕ) (dma : Bool)
    → IsAnswer (build_send_data_to_host n dev completed payload dma)
unfolding build_send_data_to_host pack_header peek_tag
send_data-IsAnswer n dev completed payload dma = inl refl

command_end-IsAnswer :
    (n : ℕ) (error : Bool) (sense dev asc asq : ℕ)
    → IsAnswer (build_command_end_response n error sense dev asc asq)
unfolding build_command_end_response pack_header peek_tag
command_end-IsAnswer n error sense dev asc asq = inr refl

-- A command ends in a frame, in the start of a read, or in a failure since a read is not done.
module _ {C : Type 0} (link : Link C) (image : Image) (P : IderSession C → IderSession C → Type 0)
    (replied : (build : ℕ → List ℕ) (s : IderSession C)
      → ((n : ℕ) → IsAnswer (build n))
      → P s (write_next link build s))
    (readied : (build : ℕ → List ℕ) (s : IderSession C)
      → ((n : ℕ) → IsAnswer (build n))
      → P s (write_next link build (record s { cd_ready = true })))
    (begun : (position remaining dev feature size : ℕ) (s : IderSession C)
      → s.in_flight ≡ false
      → P s (record s {
        position = position;
        remaining = remaining;
        chunk_dev = dev;
        chunk_feature = feature;
        chunk_size = size;
        in_flight = true;
        armed = s.armed + 1;
      }))
    (broken : (s : IderSession C) → s.in_flight ≡ true → P s (fail interleaved_reads s)) where
  either :
      (s : IderSession C) (b : Bool) (t u : IderSession C)
      → P s t
      → P s u
      → P s (if b then t else u)
  either s true t u h k = h
  either s false t u h k = k

  by_flight :
      (s : IderSession C) (b : Bool) (t u : IderSession C)
      → (b ≡ true → P s t)
      → (b ≡ false → P s u)
      → P s (if b then t else u)
  by_flight s true t u h k = h refl
  by_flight s false t u h k = k refl

  answered :
      (dev : ℕ) (completed : Bool) (payload : List ℕ) (dma : Bool) (s : IderSession C)
      → P s (send_data link dev completed payload dma s)
  unfolding send_data
  answered dev completed payload dma s =
      replied (λ n. build_send_data_to_host n dev completed payload dma) s
        (λ n. send_data-IsAnswer n dev completed payload dma)

  granted : (dev : ℕ) (s : IderSession C) → P s (send_ok link dev s)
  unfolding send_ok
  granted dev s =
      replied (λ n. build_command_end_response n false sense_no_sense dev 0x00 0x00) s
        (λ n. command_end-IsAnswer n false sense_no_sense dev 0x00 0x00)

  denied : (dev sense asc asq : ℕ) (s : IderSession C) → P s (send_error link dev sense asc asq s)
  unfolding send_error
  denied dev sense asc asq s =
      replied (λ n. build_command_end_response n false sense dev asc asq) s
        (λ n. command_end-IsAnswer n false sense dev asc asq)

  media_changed :
      (dev : ℕ) (s : IderSession C)
      → P s (send_error link dev sense_unit_attention 0x28 0x00 (record s { cd_ready = true }))
  unfolding send_error
  media_changed dev s =
      readied (λ n. build_command_end_response n false sense_unit_attention dev 0x28 0x00) s
        (λ n. command_end-IsAnswer n false sense_unit_attention dev 0x28 0x00)

  test_unit_ready-P : (dev : ℕ) (s : IderSession C) → P s (scsi_test_unit_ready link image dev s)
  unfolding scsi_test_unit_ready
  test_unit_ready-P dev s =
      either s _ _ _ (denied _ _ _ _ s) (either s _ _ _ (media_changed dev s) (granted dev s))

  mode_sense6-P :
      (cdb : List ℕ) (dev feature : ℕ) (s : IderSession C)
      → P s (scsi_mode_sense6 link image cdb dev feature s)
  unfolding scsi_mode_sense6
  mode_sense6-P cdb dev feature s = either s (ltb (length cdb) 4) _ _ (denied _ _ _ _ s) (
      either s ((get_or cdb 2 0 == 0x3F) && (get_or cdb 3 0 == 0x00)) _ _
        (either s (dev == device_cd_rom) _ _
          (either s (not s.is_open) _ _ (denied _ _ _ _ s) (answered _ _ _ _ s)) (denied _ _ _ _ s))
        (denied _ _ _ _ s))

  mode_sense10-P :
      (cdb : List ℕ) (dev feature : ℕ) (s : IderSession C)
      → P s (scsi_mode_sense10 link image cdb dev feature s)
  unfolding scsi_mode_sense10
  mode_sense10-P cdb dev feature s =
      let page : List ℕ =
        if dev == device_cd_rom then mode_page (bit_and (get_or cdb 2 0) 0x3F) else [] in
      either s (ltb (length cdb) 8) _ _ (denied _ _ _ _ s) (
        either s (read_be16 cdb 7 == 0) _ _ (answered _ _ _ _ s)
          (either s (length page == 0) _ _ (denied _ _ _ _ s) (answered _ _ _ _ s)))

  start_read-P :
      (dev feature lba len : ℕ) (s : IderSession C)
      → P s (start_read link image dev feature lba len s)
  unfolding start_read
  start_read-P dev feature lba len s =
      let size : ℕ = s.info.read_buffer in
      either s (ltb (s.iso_size / 2 ^ 11) (lba + len)) _ _ (denied _ _ _ _ s) (
        either s (len == 0) _ _ (granted _ s) (
          by_flight s s.in_flight _ _ (λ e. broken s e)
            (λ e. either s (not (image.seek (lba * 2 ^ 11))) _ _ (denied _ _ _ _ s) (
              begun (lba * 2 ^ 11) (len * 2 ^ 11) dev feature
                (if ltb 0 size then size else max_read_cap) s e))))

  read-P :
      (cdb : List ℕ) (dev feature : ℕ) (is_read10 : Bool) (s : IderSession C)
      → P s (scsi_read link image cdb dev feature is_read10 s)
  unfolding scsi_read
  read-P cdb dev feature is_read10 s =
      let b1 : ℕ = shl (bit_and (get_or cdb 1 0) 0x1F) 16 in
      let b2 : ℕ = shl (get_or cdb 2 0) 8 in
      let b4 : ℕ = get_or cdb 4 0 in
      either s (not (dev == device_cd_rom) || not s.is_open) _ _ (denied _ _ _ _ s) (
        either s is_read10 _ _
          (either s (ltb (length cdb) 9) _ _ (denied _ _ _ _ s)
            (start_read-P dev feature (read_be32 cdb 2) (read_be16 cdb 7) s))
          (either s (ltb (length cdb) 5) _ _ (denied _ _ _ _ s) (
            start_read-P dev feature (bit_or (bit_or b1 b2) (get_or cdb 3 0))
              (if b4 == 0 then 256 else b4) s)))

  read_toc-P :
      (cdb : List ℕ) (dev feature : ℕ) (s : IderSession C)
      → P s (scsi_read_toc link image cdb dev feature s)
  unfolding scsi_read_toc
  read_toc-P cdb dev feature s =
      let msf : Bool = ltb 1 (length cdb) && not (bit_and (get_or cdb 1 0) 0x02 == 0) in
      let format0 : ℕ = if ltb 2 (length cdb) then bit_and (get_or cdb 2 0) 0x07 else 0 in
      let format : ℕ =
        if (format0 == 0) && ltb 9 (length cdb) then get_or cdb 9 0 / 2 ^ 6 else format0 in
      either s (not (dev == device_cd_rom)) _ _ (denied _ _ _ _ s) (
        either s (format == 1) _ _ (answered _ _ _ _ s) (
          either s (format == 0) _ _ (either s msf _ _ (answered _ _ _ _ s) (answered _ _ _ _ s))
            (denied _ _ _ _ s)))

  get_configuration-P :
      (cdb : List ℕ) (dev feature : ℕ) (s : IderSession C)
      → P s (scsi_get_configuration link image cdb dev feature s)
  unfolding scsi_get_configuration
  get_configuration-P cdb dev feature s =
      either s (ltb (length cdb) 9) _ _ (denied _ _ _ _ s)
        (either s (read_be16 cdb 7 == 0) _ _ (answered _ _ _ _ s) (answered _ _ _ _ s))

  medium_removal-P :
      (dev : ℕ) (s : IderSession C) → P s (scsi_allow_medium_removal link image dev s)
  unfolding scsi_allow_medium_removal
  medium_removal-P dev s =
      either s ((dev == device_cd_rom) && not s.is_open) _ _ (denied _ _ _ _ s) (granted dev s)

  start_stop-P : (dev : ℕ) (s : IderSession C) → P s (scsi_start_stop link image dev s)
  unfolding scsi_start_stop
  start_stop-P dev s = granted dev s

  read_capacity-P :
      (dev feature : ℕ) (s : IderSession C) → P s (scsi_read_capacity link image dev feature s)
  unfolding scsi_read_capacity
  read_capacity-P dev feature s =
      either s (not (dev == device_cd_rom) || (not s.is_open || ltb s.iso_size 2048)) _ _
        (denied _ _ _ _ s) (answered _ _ _ _ s)

  event_status-P :
      (cdb : List ℕ) (dev feature : ℕ) (s : IderSession C)
      → P s (scsi_get_event_status link image cdb dev feature s)
  unfolding scsi_get_event_status
  event_status-P cdb dev feature s =
      let other : Bool = not (get_or cdb 1 0 == 0x01) && not (get_or cdb 4 0 == 0x10) in
      either s (ltb (length cdb) 10 || other) _ _ (denied _ _ _ _ s) (answered _ _ _ _ s)

  format_capacities-P :
      (dev feature : ℕ) (s : IderSession C)
      → P s (scsi_read_format_capacities link image dev feature s)
  unfolding scsi_read_format_capacities
  format_capacities-P dev feature s =
      either s (not (dev == device_cd_rom) || (not s.is_open || s.iso_size == 0)) _ _
        (denied _ _ _ _ s) (answered _ _ _ _ s)

  -- Every command that has a byte.
  pub handle_scsi-P :
      (cmd : ScsiCommand) (s : IderSession C)
      → (length cmd.cdb == 0) ≡ false
      → P s (handle_scsi link image cmd s)
  unfolding handle_scsi
  handle_scsi-P cmd s some_bytes =
      let op : ℕ = get_or cmd.cdb 0 0 in
      let dev : ℕ =
        if not (bit_and cmd.device_flags 0x10 == 0) then device_cd_rom else device_floppy in
      let fr : ℕ = cmd.feature_register in
      let cdb : List ℕ = cmd.cdb in
      by_flight s (length cdb == 0) _ _ (λ e. absurd (cc))
        (λ e. either s (op == op_test_unit_ready) _ _ (test_unit_ready-P dev s) (
          either s (op == op_mode_sense6) _ _ (mode_sense6-P cdb dev fr s) (
            either s (op == op_mode_sense10) _ _ (mode_sense10-P cdb dev fr s) (
              either s (op == op_allow_medium_removal) _ _ (medium_removal-P dev s) (
                either s (op == op_start_stop) _ _ (start_stop-P dev s) (
                  either s (op == op_read_capacity) _ _ (read_capacity-P dev fr s) (
                    either s (op == op_read6) _ _ (read-P cdb dev fr false s) (
                      either s (op == op_read10) _ _ (read-P cdb dev fr true s) (
                        either s (op == op_read_toc) _ _ (read_toc-P cdb dev fr s) (
                          either s (op == op_get_configuration) _ _
                            (get_configuration-P cdb dev fr s)
                            (either s (op == op_get_event_status) _ _ (event_status-P cdb dev fr s)
                              (either s (op == op_read_format_capacities) _ _
                                (format_capacities-P dev fr s)
                                (either s
                                  ((op == op_write6)
                                    || (op == op_write10 || op == op_write_and_verify))
                                  _ _ (denied _ _ _ _ s) (denied _ _ _ _ s))))))))))))))
