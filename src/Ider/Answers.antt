-- ===== src/Ider/Answers.antt =====
-- ider/src/ider_session.cpp: the fixed answers of the session.
use mesh_commander.Wire.{pack32_le}
use mesh_commander.Ider.Scsi.{
  pack_be32, mode_sense_cd_1a, mode_sense_cd_1d, mode_sense_cd_2a, mode_sense_cd_3f,
  mode_sense_cd_error_recovery, config_profile_list, config_core, config_morphing, config_removable,
  config_random, config_read, config_power_management, config_timeout,
}
use mesh_commander.Prelude.{
  ℕ, Bool, ◌&&◌, ◌||◌, List, [], ◌∷◌, ◌++◌, ltb, ◌==◌, if◌then◌else◌, length, take, bit_or,
}

-- `payload` of onOpenSessionReply and onStatusData.
unfoldable pub enable_payload : ℕ → List ℕ
enable_payload start_option = pack32_le (bit_or 0x01 start_option)

-- `if (r.size() > buflen) r = r.left(buflen)`.
abbrev pub cut_to : ℕ → List ℕ → List ℕ
cut_to buflen r = if ltb buflen (length r) then take buflen r else r

abbrev pub empty_mode : List ℕ
empty_mode = pack_be32 0x003C0000 ++ pack_be32 0x00000008

-- The page of MODE SENSE(10) for the CD-ROM; none is an empty array.
unfoldable pub mode_page : ℕ → List ℕ
mode_page code =
    if code == 0x01
    then mode_sense_cd_error_recovery
    else if code == 0x1A
    then mode_sense_cd_1a
    else if code == 0x1D
    then mode_sense_cd_1d
    else if code == 0x2A
    then mode_sense_cd_2a
    else if code == 0x3F
    then mode_sense_cd_3f
    else []

-- A feature block, when its code is asked for.
abbrev pub feature_block : Bool → ℕ → ℕ → List ℕ → List ℕ
feature_block send_all first_code code block =
    if first_code == code || (send_all && ltb first_code code) then block else []

unfoldable pub configuration : Bool → ℕ → List ℕ
configuration send_all first_code =
    let wanted = feature_block send_all first_code in
    pack_be32 0x00000008
    ++ ((if first_code == 0 then config_profile_list else [])
        ++ (wanted 0x1 config_core
            ++ (wanted 0x2 config_morphing
                ++ (wanted 0x3 config_removable
                    ++ (wanted 0x10 config_random
                        ++ (wanted 0x1E config_read
                            ++ (wanted 0x100 config_power_management
                                ++ wanted 0x105 config_timeout)))))))

unfoldable pub toc_sessions : List ℕ
toc_sessions =
    0x00 ∷ 0x0A ∷ 0x01 ∷ 0x01 ∷ 0x00 ∷ 0x14 ∷ 0x01 ∷ 0x00 ∷ 0x00 ∷ 0x00 ∷ 0x00 ∷ 0x00 ∷ []

unfoldable pub toc_msf : List ℕ
toc_msf =
    0x00 ∷ 0x12 ∷ 0x01 ∷ 0x01 ∷ 0x00 ∷ 0x14 ∷ 0x01 ∷ 0x00 ∷ 0x00 ∷ 0x00 ∷ 0x02 ∷ 0x00 ∷ 0x00 ∷ 0x14
    ∷ 0xAA ∷ 0x00 ∷ 0x00 ∷ 0x00 ∷ 0x34 ∷ 0x13 ∷ []

unfoldable pub toc_lba : List ℕ
toc_lba =
    0x00 ∷ 0x12 ∷ 0x01 ∷ 0x01 ∷ 0x00 ∷ 0x14 ∷ 0x01 ∷ 0x00 ∷ 0x00 ∷ 0x00 ∷ 0x00 ∷ 0x00 ∷ 0x00 ∷ 0x14
    ∷ 0xAA ∷ 0x00 ∷ 0x00 ∷ 0x00 ∷ 0x00 ∷ 0x00 ∷ []

unfoldable pub format_capacities : List ℕ
format_capacities =
    0x00 ∷ 0x00 ∷ 0x00 ∷ 0x08 ∷ 0x00 ∷ 0x00 ∷ 0x0B ∷ 0x40 ∷ 0x02 ∷ 0x00 ∷ 0x02 ∷ 0x00 ∷ []
