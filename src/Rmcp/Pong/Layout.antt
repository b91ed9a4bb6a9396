-- ===== src/Rmcp/Pong/Layout.antt =====
-- The presence pong of rmcp/src/pong.cpp against the layout that its comments give.
use mesh_commander.Prelude.{
  bit_and_four, bit_or_high_left, ℕ, ◌+◌, ◌*◌, ◌/◌, ◌%◌, ◌^◌, ◌<◌, ◌≡◌, List, ◌∷◌, some,
  if◌then◌else◌, arith, bit_and_mask,
}
use mesh_commander.Wire.{shr}
use mesh_commander.Rmcp.Pong.{
  ProvisioningState, pre_provisioning, in_process, post_provisioning, PongMessage,
  rmcp_msg_class_asf, asf_msg_type_pong, provisioning_of, parse_pong,
}

abbrev pub provisioning_code : ProvisioningState → ℕ
provisioning_code pre_provisioning = 0
provisioning_code in_process = 1
provisioning_code post_provisioning = 2

-- The reply as the firmware sends it: byte 19 is the state, plus 4 for both ports, plus flags that
-- the scanner does not read.
abbrev pub encode_pong : PongMessage → ℕ → List ℕ → List ℕ
encode_pong m flags rest =
    0x06
    ∷ 0x00
    ∷ 0xFF
    ∷ rmcp_msg_class_asf
    ∷ 0x00
    ∷ 0x00
    ∷ 0x11
    ∷ 0xBE
    ∷ asf_msg_type_pong
    ∷ m.tag
    ∷ 0x00
    ∷ 0x10
    ∷ 0
    ∷ 0
    ∷ 0
    ∷ 0
    ∷ m.open_port / 256
    ∷ m.open_port % 256
    ∷ (m.version_major * 16 + m.version_minor)
    ∷ (provisioning_code m.provisioning + (if m.dual_ports then 4 else 0) + flags * 8)
    ∷ 0
    ∷ 0
    ∷ rest

-- A presence pong with a port below 2^16 and version halves below 16, as the firmware lays it
-- out with any further flags and bytes, is parsed back to its message.
pub parse-encode_pong :
    (m : PongMessage) (flags : ℕ) (rest : List ℕ)
    → m.open_port < 2 ^ 16
    → m.version_major < 16
    → m.version_minor < 16
    → flags < 32
    → parse_pong (encode_pong m flags rest) ≡ some m
unfolding parse_pong provisioning_of
parse-encode_pong m flags rest hp hM hm hf =
    let version : ℕ = m.version_major * 16 + m.version_minor in
    let status : ℕ =
      provisioning_code m.provisioning + (if m.dual_ports then 4 else 0) + flags * 8 in
    ground (
      arith,
      bit_or_high_left 8 (m.open_port / 256) (m.open_port % 256) (omega arith),
      bit_and_mask 4 (shr version 4),
      bit_and_mask 4 version,
      bit_and_mask 2 status,
      bit_and_four status,
    )
