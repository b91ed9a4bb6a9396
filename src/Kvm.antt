-- ===== src/Kvm.antt =====
-- KVM redirection (kvm/).
pub mod Codec
pub mod Tiles
pub mod Rects
pub mod Session
mod Tests
