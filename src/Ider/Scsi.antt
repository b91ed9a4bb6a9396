-- ===== src/Ider/Scsi.antt =====
-- ider/include/ider/scsi.h and ider/src/scsi.cpp: the big-endian fields of SCSI, and the fixed answers
-- to MODE SENSE and GET CONFIGURATION.
pub mod Fields
use mesh_commander.Prelude.{ℕ, ◌+◌, ◌%◌, ◌^◌, List, [], ◌∷◌, get_or, bit_and, bit_or}
use mesh_commander.Wire.{shl, shr}

-- The opcodes.
abbrev pub op_test_unit_ready : ℕ
op_test_unit_ready = 0x00

abbrev pub op_read6 : ℕ
op_read6 = 0x08

abbrev pub op_write6 : ℕ
op_write6 = 0x0A

abbrev pub op_mode_sense6 : ℕ
op_mode_sense6 = 0x1A

abbrev pub op_start_stop : ℕ
op_start_stop = 0x1B

abbrev pub op_allow_medium_removal : ℕ
op_allow_medium_removal = 0x1E

abbrev pub op_read_format_capacities : ℕ
op_read_format_capacities = 0x23

abbrev pub op_read_capacity : ℕ
op_read_capacity = 0x25

abbrev pub op_read10 : ℕ
op_read10 = 0x28

abbrev pub op_write10 : ℕ
op_write10 = 0x2A

abbrev pub op_write_and_verify : ℕ
op_write_and_verify = 0x2E

abbrev pub op_read_toc : ℕ
op_read_toc = 0x43

abbrev pub op_get_configuration : ℕ
op_get_configuration = 0x46

abbrev pub op_get_event_status : ℕ
op_get_event_status = 0x4A

abbrev pub op_mode_select10 : ℕ
op_mode_select10 = 0x55

abbrev pub op_mode_sense10 : ℕ
op_mode_sense10 = 0x5A

abbrev pub op_read_disc_info : ℕ
op_read_disc_info = 0x51

unfoldable pub mode_sense_cd_1a : List ℕ
mode_sense_cd_1a =
    0x00 ∷ 0x12 ∷ 0x01 ∷ 0x80 ∷ 0x00 ∷ 0x00 ∷ 0x00 ∷ 0x00 ∷ 0x1A ∷ 0x0A ∷ 0x00 ∷ 0x00 ∷ 0x00 ∷ 0x00
    ∷ 0x00 ∷ 0x00 ∷ 0x00 ∷ 0x00 ∷ 0x00 ∷ 0x00 ∷ []

unfoldable pub mode_sense_cd_1d : List ℕ
mode_sense_cd_1d =
    0x00 ∷ 0x12 ∷ 0x01 ∷ 0x80 ∷ 0x00 ∷ 0x00 ∷ 0x00 ∷ 0x00 ∷ 0x1D ∷ 0x0A ∷ 0x00 ∷ 0x00 ∷ 0x00 ∷ 0x00
    ∷ 0x00 ∷ 0x00 ∷ 0x00 ∷ 0x00 ∷ 0x00 ∷ 0x00 ∷ []

unfoldable pub mode_sense_cd_2a : List ℕ
mode_sense_cd_2a =
    0x00 ∷ 0x20 ∷ 0x01 ∷ 0x80 ∷ 0x00 ∷ 0x00 ∷ 0x00 ∷ 0x00 ∷ 0x2A ∷ 0x18 ∷ 0x00 ∷ 0x00 ∷ 0x00 ∷ 0x00
    ∷ 0x20 ∷ 0x00 ∷ 0x00 ∷ 0x00 ∷ 0x00 ∷ 0x00 ∷ 0x00 ∷ 0x80 ∷ 0x00 ∷ 0x00 ∷ 0x00 ∷ 0x00 ∷ 0x00
    ∷ 0x00 ∷ 0x00 ∷ 0x00 ∷ 0x00 ∷ 0x00 ∷ 0x00 ∷ 0x00 ∷ []

unfoldable pub mode_sense_cd_3f : List ℕ
mode_sense_cd_3f =
    0x00 ∷ 0x28 ∷ 0x01 ∷ 0x80 ∷ 0x00 ∷ 0x00 ∷ 0x00 ∷ 0x00 ∷ 0x01 ∷ 0x06 ∷ 0x00 ∷ 0xFF ∷ 0x00 ∷ 0x00
    ∷ 0x00 ∷ 0x00 ∷ 0x2A ∷ 0x18 ∷ 0x00 ∷ 0x00 ∷ 0x00 ∷ 0x00 ∷ 0x02 ∷ 0x00 ∷ 0x00 ∷ 0x00 ∷ 0x00
    ∷ 0x00 ∷ 0x00 ∷ 0x80 ∷ 0x00 ∷ 0x00 ∷ 0x00 ∷ 0x00 ∷ 0x00 ∷ 0x00 ∷ 0x00 ∷ 0x00 ∷ 0x00 ∷ 0x00
    ∷ 0x00 ∷ 0x00 ∷ []

unfoldable pub mode_sense_cd_error_recovery : List ℕ
mode_sense_cd_error_recovery =
    0x00 ∷ 0x0E ∷ 0x01 ∷ 0x80 ∷ 0x00 ∷ 0x00 ∷ 0x00 ∷ 0x00 ∷ 0x01 ∷ 0x06 ∷ 0x00 ∷ 0xFF ∷ 0x00 ∷ 0x00
    ∷ 0x00 ∷ 0x00 ∷ []

unfoldable pub config_profile_list : List ℕ
config_profile_list = 0x00 ∷ 0x00 ∷ 0x03 ∷ 0x04 ∷ 0x00 ∷ 0x08 ∷ 0x01 ∷ 0x00 ∷ []

unfoldable pub config_core : List ℕ
config_core = 0x00 ∷ 0x01 ∷ 0x03 ∷ 0x04 ∷ 0x00 ∷ 0x00 ∷ 0x00 ∷ 0x02 ∷ []

unfoldable pub config_morphing : List ℕ
config_morphing = 0x00 ∷ 0x02 ∷ 0x03 ∷ 0x04 ∷ 0x00 ∷ 0x00 ∷ 0x00 ∷ 0x00 ∷ []

unfoldable pub config_removable : List ℕ
config_removable = 0x00 ∷ 0x03 ∷ 0x03 ∷ 0x04 ∷ 0x29 ∷ 0x00 ∷ 0x00 ∷ 0x02 ∷ []

unfoldable pub config_random : List ℕ
config_random =
    0x00 ∷ 0x10 ∷ 0x01 ∷ 0x08 ∷ 0x00 ∷ 0x00 ∷ 0x08 ∷ 0x00 ∷ 0x00 ∷ 0x01 ∷ 0x00 ∷ 0x00 ∷ []

unfoldable pub config_read : List ℕ
config_read = 0x00 ∷ 0x1E ∷ 0x03 ∷ 0x00 ∷ []

unfoldable pub config_power_management : List ℕ
config_power_management = 0x01 ∷ 0x00 ∷ 0x03 ∷ 0x00 ∷ []

unfoldable pub config_timeout : List ℕ
config_timeout = 0x01 ∷ 0x05 ∷ 0x03 ∷ 0x00 ∷ []

unfoldable pub read_be16 : List ℕ → ℕ → ℕ
read_be16 b off = bit_or (shl (get_or b off 0) 8 % 2 ^ 16) (get_or b (off + 1) 0)

unfoldable pub read_be32 : List ℕ → ℕ → ℕ
read_be32 b off =
    bit_or
      (bit_or (bit_or (shl (get_or b off 0) 24 % 2 ^ 32) (shl (get_or b (off + 1) 0) 16))
        (shl (get_or b (off + 2) 0) 8))
      (get_or b (off + 3) 0)

unfoldable pub pack_be32 : ℕ → List ℕ
pack_be32 v =
    bit_and (shr v 24) 0xFF ∷ bit_and (shr v 16) 0xFF ∷ bit_and (shr v 8) 0xFF ∷ bit_and v 0xFF ∷ []
