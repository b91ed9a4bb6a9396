-- ===== src/Ider.antt =====
-- IDE redirection (ider/).
pub mod Codec
pub mod Scsi
pub mod State
pub mod Answers
pub mod Commands
pub mod Session
mod Tests
