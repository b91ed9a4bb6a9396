-- ===== src/Ider/Scsi/Fields.antt =====
-- The big-endian fields of ider/include/ider/scsi.h, and those of the answers of ider/src/scsi.cpp.
use mesh_commander.Prelude.{
  ℕ, ◌+◌, ◌*◌, ◌%◌, ◌^◌, ◌<◌, ◌≡◌, refl, ap, ◌∙◌, List, ◌++◌, length, get_or, arith, bit_and,
  bit_or, bit_and_mask, bit_or_high_left,
}
use mesh_commander.Wire.{shl, shr}
use mesh_commander.Ider.Scsi.{
  read_be16, read_be32, pack_be32, mode_sense_cd_1a, mode_sense_cd_1d, mode_sense_cd_2a,
  mode_sense_cd_3f, mode_sense_cd_error_recovery, config_profile_list, config_core, config_morphing,
  config_removable, config_random, config_read, config_power_management, config_timeout,
}

join_be16 : (a b : ℕ) → a < 256 → b < 256 → bit_or (shl a 8 % 2 ^ 16) b ≡ a * 256 + b
join_be16 a b ha hb = ap (λ (x : ℕ). bit_or x b) narrow ∙ bit_or_high_left 8 a b hb
  where
    narrow : a * 2 ^ 8 % 2 ^ 16 ≡ a * 2 ^ 8
    narrow = omega arith

join_be32 :
    (a b c d : ℕ)
    → a < 256
    → b < 256
    → c < 256
    → d < 256
    → bit_or (bit_or (bit_or (shl a 24 % 2 ^ 32) (shl b 16)) (shl c 8)) d
      ≡ a * 2 ^ 24 + b * 2 ^ 16 + c * 2 ^ 8 + d
join_be32 a b c d ha hb hc hd =
    ap (λ (x : ℕ). bit_or x d)
      (ap (λ (x : ℕ). bit_or x (shl c 8))
          (ap (λ (x : ℕ). bit_or x (shl b 16)) narrow
            ∙ bit_or_high_left 24 a (b * 2 ^ 16) (omega arith)
            ∙ omega arith)
        ∙ bit_or_high_left 16 (a * 256 + b) (c * 2 ^ 8) (omega arith)
        ∙ omega arith)
    ∙ bit_or_high_left 8 ((a * 256 + b) * 256 + c) d hd
    ∙ omega arith
  where
    narrow : a * 2 ^ 24 % 2 ^ 32 ≡ a * 2 ^ 24
    narrow = omega arith

mask8 : (v : ℕ) → bit_and v 0xFF ≡ v % 256
mask8 v = bit_and_mask 8 v

-- A number below 2^32 that is packed in four big-endian bytes is read back from them, whatever
-- follows, and their last two bytes read as its low 16 bits.
pub read_be32-pack_be32 :
    (v : ℕ) (rest : List ℕ)
    → v < 2 ^ 32
    → (read_be32 (pack_be32 v ++ rest) 0 ≡ v) × (read_be16 (pack_be32 v ++ rest) 2 ≡ v % 2 ^ 16)
unfolding read_be32 pack_be32 read_be16
read_be32-pack_be32 v rest h = (
  join_be32 (bit_and (shr v 24) 0xFF) (bit_and (shr v 16) 0xFF) (bit_and (shr v 8) 0xFF)
        (bit_and v 0xFF) (omega (arith, mask8 (shr v 24))) (omega (arith, mask8 (shr v 16)))
        (omega (arith, mask8 (shr v 8))) (omega (arith, mask8 v))
      ∙ omega (arith, mask8 v, mask8 (shr v 8), mask8 (shr v 16), mask8 (shr v 24)),
  join_be16 (bit_and (shr v 8) 0xFF) (bit_and v 0xFF) (omega (arith, mask8 (shr v 8)))
        (omega (arith, mask8 v))
      ∙ omega (arith, mask8 v, mask8 (shr v 8)),
)

-- Each answer is as long as its own length field says.
scsi_tables_declare :
    (read_be16 mode_sense_cd_1a 0 + 2 ≡ length mode_sense_cd_1a)
    × (read_be16 mode_sense_cd_1d 0 + 2 ≡ length mode_sense_cd_1d)
    × (read_be16 mode_sense_cd_2a 0 + 2 ≡ length mode_sense_cd_2a)
    × (read_be16 mode_sense_cd_3f 0 + 2 ≡ length mode_sense_cd_3f)
    × (read_be16 mode_sense_cd_error_recovery 0 + 2 ≡ length mode_sense_cd_error_recovery)
    × (get_or config_profile_list 3 0 + 4 ≡ length config_profile_list)
    × (get_or config_core 3 0 + 4 ≡ length config_core)
    × (get_or config_morphing 3 0 + 4 ≡ length config_morphing)
    × (get_or config_removable 3 0 + 4 ≡ length config_removable)
    × (get_or config_random 3 0 + 4 ≡ length config_random)
    × (get_or config_read 3 0 + 4 ≡ length config_read)
    × (get_or config_power_management 3 0 + 4 ≡ length config_power_management)
    × (get_or config_timeout 3 0 + 4 ≡ length config_timeout)
unfolding read_be16 mode_sense_cd_1a mode_sense_cd_1d mode_sense_cd_2a mode_sense_cd_3f
    mode_sense_cd_error_recovery config_profile_list config_core config_morphing config_removable
    config_random config_read config_power_management config_timeout
scsi_tables_declare = (refl, refl, refl, refl, refl, refl, refl, refl, refl, refl, refl, refl, refl)
