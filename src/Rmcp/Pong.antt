-- ===== src/Rmcp/Pong.antt =====
-- rmcp/include/rmcp/pong.h and rmcp/src/pong.cpp: the presence ping and its reply. A datagram is
-- its bytes, each below 256; the shifts and masks are the code's.
pub mod Layout
use mesh_commander.Prelude.{
  ℕ, zero, suc, ◌+◌, ◌-◌, ◌*◌, ◌/◌, ◌%◌, ◌^◌, ◌≤◌, ◌<◌, min, ◌≡◌, ◌≢◌, refl, sym, ap, ◌∙◌, ◌⊎◌, inl,
  inr, ◌↔◌, Bool, true, false, not, ◌&&◌, ◌||◌, List, [], ◌∷◌, ◌++◌, Option, none, some, map, ltb,
  leb, ◌==◌, if◌then◌else◌, length, get_or, Bool-cases, Option-cases, arith, set, replicate,
  bit_and, bit_or,
}
use mesh_commander.Wire.{shl, shr}

pub data ProvisioningState : Type 0 where
  pre_provisioning in_process post_provisioning : ProvisioningState

pub record PongMessage : Type 0 where
  pub tag : ℕ
  pub version_major : ℕ
  pub version_minor : ℕ
  pub provisioning : ProvisioningState
  pub dual_ports : Bool
  pub open_port : ℕ

abbrev pub rmcp_version : ℕ
rmcp_version = 0x06

abbrev pub rmcp_msg_class_asf : ℕ
rmcp_msg_class_asf = 0x06

abbrev pub asf_msg_type_ping : ℕ
asf_msg_type_ping = 0x80

abbrev pub asf_msg_type_pong : ℕ
asf_msg_type_pong = 0x40

-- The twelve bytes, written one by one over zeros.
unfoldable pub build_ping : ℕ → List ℕ
build_ping tag =
    let o0 : List ℕ = set (replicate 12 0) 0 rmcp_version in
    let o1 : List ℕ = set o0 1 0x00 in
    let o2 : List ℕ = set o1 2 0x00 in
    let o3 : List ℕ = set o2 3 rmcp_msg_class_asf in
    let o4 : List ℕ = set o3 4 0x00 in
    let o5 : List ℕ = set o4 5 0x00 in
    let o6 : List ℕ = set o5 6 0x11 in
    let o7 : List ℕ = set o6 7 0xBE in
    let o8 : List ℕ = set o7 8 asf_msg_type_ping in
    let o9 : List ℕ = set o8 9 tag in let o10 : List ℕ = set o9 10 0x00 in set o10 11 0x00

-- The switch on the low two bits of byte 19.
unfoldable pub provisioning_of : ℕ → Option ProvisioningState
provisioning_of prov =
    if prov == 0
    then some pre_provisioning
    else if prov == 1
    then some in_process
    else if prov == 2
    then some post_provisioning
    else none

unfoldable pub parse_pong : List ℕ → Option PongMessage
parse_pong datagram =
    let b = λ (i : ℕ). get_or datagram i 0 in
    let flags : ℕ = b 19 in
    if ltb (length datagram) 22
    then none
    else if not (b 3 == rmcp_msg_class_asf)
    then none
    else if not (b 4 == 0x00) || not (b 5 == 0x00) || not (b 6 == 0x11) || not (b 7 == 0xBE)
    then none
    else if not (b 8 == asf_msg_type_pong)
    then none
    else elim (provisioning_of (bit_and flags 0x03)) [
      | none ↦ none
      | some state ↦ some (record {
        tag = b 9;
        open_port = bit_or (shl (b 16) 8) (b 17) % 2 ^ 16;
        version_major = bit_and (shr (b 18) 4) 0x0F;
        version_minor = bit_and (b 18) 0x0F;
        provisioning = state;
        dual_ports = not (bit_and flags 0x04 == 0);
      })
    ]
